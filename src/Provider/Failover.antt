-- ===== src/Provider/Failover.antt =====
-- internal/provider/failover.go: the failover over a list of providers, until the first chunk.
-- A provider is what it answers to a prompt: an error of Stream, or the answers that the Nexts of
-- its stream give in turn. Each definition of a call gives the number of providers called too.
pub mod Trigger
pub mod Commit
use nexus_agent_demo.Prelude.{
  ℕ, suc, Bool, true, false, ◌&&◌, ◌||◌, Option, none, some, List, [], ◌∷◌, if◌then◌else◌,
}
use nexus_agent_demo.Prelude.Text.{Text}

pub data TriggerClass : Type 0 where
  retryable permanent context_overflow : TriggerClass

-- An error as the chain that `errors.Is` and `errors.As` unwrap.
pub data Err : Type 0 where
  context_overflow_error throttle_error plain : Text → Err
  deadline_exceeded unexpected_eof no_providers : Err
  wrapped : Text → Err → Err

-- errors.As to a *ContextOverflowError.
unfoldable overflows : Err → Bool
overflows (context_overflow_error t) = true
overflows (wrapped t e) = overflows e
overflows _ = false

unfoldable throttles : Err → Bool
throttles (throttle_error t) = true
throttles (wrapped t e) = throttles e
throttles _ = false

-- errors.Is for one of the two sentinels.
unfoldable drops : Err → Bool
drops deadline_exceeded = true
drops unexpected_eof = true
drops (wrapped t e) = drops e
drops _ = false

unfoldable pub classify_trigger : Err → TriggerClass
unfolding overflows throttles drops
classify_trigger e =
    if overflows e
    then context_overflow
    else if throttles e
    then retryable
    else if drops e
    then retryable
    else permanent

-- What Next returns: a chunk with its flag, or an error.
pub data Next : Type 0 where
  chunk : Text → (ok : Bool) → Next
  fails : Err → Next

pub data Opened : Type 0 where
  refuses : Err → Opened
  opens : List Next → Opened

abbrev pub Provider : Type 0
Provider = Text → Opened

-- The Next of a provider's stream; a stream that has given all is at its end.
unfoldable pub next_inner : List Next → Next × List Next
next_inner [] = (chunk [] false, [])
next_inner (n ∷ ns) = (n, ns)

pub record PeekedStream : Type 0 where
  pub first : Text
  pub first_ok : Bool
  pub has_first : Bool
  pub inner : List Next

unfoldable pub next : PeekedStream → Next × PeekedStream
unfolding next_inner
next s =
    if s.has_first
    then (chunk s.first s.first_ok, record s { has_first = false })
    else (let (n, rest) = next_inner s.inner in (n, record s { inner = rest }))

pub data Result : Type 0 where
  failed : Err → Result
  committed : PeekedStream → Result

abbrev peek : Next × List Next → Result
peek (fails e, rest) = failed e
peek (chunk c ok, rest) =
    committed (record { first = c; first_ok = ok; has_first = true; inner = rest })

abbrev peek_opened : Opened → Result
peek_opened (refuses e) = failed e
peek_opened (opens ns) = peek (next_inner ns)

-- One round of the loop: Stream, and the first Next.
unfoldable pub attempt : Provider → Text → Result
unfolding next_inner
attempt p prompt = peek_opened (p prompt)

unfoldable is_retryable : TriggerClass → Bool
is_retryable retryable = true
is_retryable _ = false

-- Whether the loop goes on after the round, if there is a next provider.
unfoldable pub goes_on : Result → Bool
unfolding classify_trigger is_retryable
goes_on (failed e) = is_retryable (classify_trigger e)
goes_on (committed s) = false

-- What is returned, and the providers called, if the loop goes on to `rest` or not.
abbrev loop_on : Bool → Result → Result × ℕ → Result × ℕ
loop_on true r rest = (rest.0, suc rest.1)
loop_on false r rest = (r, 1)

-- The loop over the providers from the one given on.
unfoldable pub stream_from : Provider → List Provider → Text → Result × ℕ
unfolding attempt goes_on
stream_from p [] prompt = (attempt p prompt, 1)
stream_from p (q ∷ qs) prompt =
    let rest = stream_from q qs prompt in
    loop_on (goes_on (attempt p prompt)) (attempt p prompt) rest

unfoldable pub stream : List Provider → Text → Result × ℕ
unfolding stream_from
stream [] prompt = (failed no_providers, 0)
stream (p ∷ ps) prompt = stream_from p ps prompt
