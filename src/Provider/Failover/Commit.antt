-- ===== src/Provider/Failover/Commit.antt =====
-- Which provider the failover commits to, and what a reader of its stream gets.
use nexus_agent_demo.Prelude.{
  ℕ, zero, suc, ◌<◌, ◌≡◌, refl, ap, sym, ◌∙◌, ◌⊎◌, Bool, true, false, some, List, [], ◌∷◌, length,
  get_elem?,
}
use nexus_agent_demo.Prelude.Text.{Text}
use nexus_agent_demo.Provider.Failover.{
  Next, Provider, PeekedStream, Result, committed, opens, next_inner, next, attempt, goes_on, peek,
  peek_opened, fails, chunk,
}

-- The providers before the `i`-th failed in a way that lets the next be tried, the result is that of
-- the `i`-th, and it is the last provider or its result ends the search.
record StopsAt (ps : List Provider) (prompt : Text) (i : ℕ) (r : Result) : Type 0 where
  provider : Provider
  is_at : get_elem? ps i ≡ some provider
  is_its_result : r ≡ attempt provider prompt
  others_failed :
      (j : ℕ) (q : Provider) → j < i → get_elem? ps j ≡ some q → goes_on (attempt q prompt) ≡ true
  is_final : (suc i ≡ length ps) ⊎ (goes_on (attempt provider prompt) ≡ false)

-- What the first `n` Nexts of the provider's own stream give.
unfoldable pub read_inner : ℕ → List Next → List Next
read_inner zero s = []
read_inner (suc n) s = (next_inner s).0 ∷ read_inner n (next_inner s).1

unfoldable pub read : ℕ → PeekedStream → List Next
read zero s = []
read (suc n) s = (next s).0 ∷ read n (next s).1

next_at :
    (b : Bool) (c : Text) (ok : Bool) (ns : List Next)
    → b ≡ false
    → next (record { first = c; first_ok = ok; has_first = b; inner = ns }) ≡ (
      (next_inner ns).0,
      record { first = c; first_ok = ok; has_first = b; inner = (next_inner ns).1 },
    )
unfolding next
next_at true c ok ns h = cc
next_at false c ok ns h = refl

next_past :
    (s : PeekedStream)
    → s.has_first ≡ false
    → next s ≡ ((next_inner s.inner).0, record s { inner = (next_inner s.inner).1 })
next_past s h = next_at s.has_first s.first s.first_ok s.inner h

read_past : (n : ℕ) (s : PeekedStream) → s.has_first ≡ false → read n s ≡ read_inner n s.inner
unfolding read read_inner
read_past zero s h = refl
read_past (suc n) s h =
    let rest = read_past n (record s { inner = (next_inner s.inner).1 }) h in
    ap (λ (k : Next × PeekedStream). k.0 ∷ read n k.1) (next_past s h)
    ∙ ap (λ (ns : List Next). (next_inner s.inner).0 ∷ ns) rest

-- A stream whose first answer has been looked at.
peeked : Text → Bool → List Next → PeekedStream
peeked c ok rest = record { first = c; first_ok = ok; has_first = true; inner = rest }

read-peeked :
    (n : ℕ) (c : Text) (ok : Bool) (ns rest : List Next)
    → next_inner ns ≡ (chunk c ok, rest)
    → read n (peeked c ok rest) ≡ read_inner n ns
unfolding read read_inner peeked next
read-peeked zero c ok ns rest e = refl
read-peeked (suc n) c ok ns rest e = rw e (
    ap (λ (ms : List Next). chunk c ok ∷ ms)
      (read_past n (record { first = c; first_ok = ok; has_first = false; inner = rest }) refl))

-- A reader of the stream that a provider's attempt commits to gets what the provider's own stream
-- gives, nothing lost and nothing twice.
pub peeked_stream_is_whole :
    (p : Provider) (prompt : Text) (ns : List Next) (s : PeekedStream) (n : ℕ)
    → p prompt ≡ opens ns
    → attempt p prompt ≡ committed s
    → read n s ≡ read_inner n ns
unfolding attempt
peeked_stream_is_whole p prompt ns s n e h = go (next_inner ns) refl (ap peek_opened (sym e) ∙ h)
  where
    go :
        (k : Next × List Next)
        → next_inner ns ≡ k
        → peek k ≡ committed s
        → read n s ≡ read_inner n ns
    go (fails x, rest) q c = cc
    go (chunk x ok, rest) q c =
        let same : peeked x ok rest ≡ s = unfold peeked in cc in
        rw (← same) (read-peeked n x ok ns rest q)
