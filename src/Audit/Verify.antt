-- ===== src/Audit/Verify.antt =====
-- internal/audit/postgres/verify.go, anchor.go: the anchors, and the verification of a tenant's receipts and anchors, on the rows
-- in the order of its queries.
pub mod Encoding
pub mod Tampering
use nexus_agent_demo.Prelude.{
  ℕ, suc, ◌+◌, Bool, true, false, not, ◌&&◌, Option, none, some, List, [], ◌∷◌, ◌++◌, ltb, leb,
  if◌then◌else◌,
}
use nexus_agent_demo.Prelude.Text.{Text, text_eq}
use nexus_agent_demo.Audit.Chain.{Bytes, Receipt, Signer, genesis_prev_hash, hash_input}

pub data BreakKind : Type 0 where
  hash_mismatch signature_invalid unverifiable_signer_key : BreakKind

-- The session is the one of a receipt, empty for an anchor.
pub record Break : Type 0 where
  pub session : Bytes
  pub seq : ℕ
  pub kind : BreakKind

abbrev pub bytes_of : Option Bytes → Bytes
bytes_of none = []
bytes_of (some b) = b

-- bytesEqualNilAware
unfoldable pub bytes_equal : Option Bytes → Option Bytes → Bool
unfolding text_eq
bytes_equal a b = text_eq (bytes_of a) (bytes_of b)

-- The hash and the trusted key: what is checked of a hash that is stored with its signature.
pub record Trust : Type 0 where
  pub sha : Bytes → Bytes
  pub current_key_id : Text
  -- ed25519.Verify with the trusted public key
  pub verifies : Bytes → Bytes → Bool

module _ (t : Trust) where
  -- The first of the three checks that fails; the stored hash is `hash`.
  unfoldable pub stored_breaks : Bytes → ℕ → Bytes → Bytes → Bytes → Text → List Break
  unfolding bytes_equal
  stored_breaks session seq want hash signature key =
      if not (bytes_equal (some want) (some hash))
      then record { session = session; seq = seq; kind = hash_mismatch } ∷ []
      else if not (text_eq key t.current_key_id)
      then record { session = session; seq = seq; kind = unverifiable_signer_key } ∷ []
      else if t.verifies hash signature
      then []
      else record { session = session; seq = seq; kind = signature_invalid } ∷ []

  -- The stored hash of the receipt before against the one that the loop expects.
  unfoldable pub prev_breaks : Option Bytes → Receipt → List Break
  unfolding bytes_equal
  prev_breaks expected r =
      if bytes_equal r.prev_hash expected
      then []
      else record { session = r.session; seq = r.seq; kind = hash_mismatch } ∷ []

  -- One receipt, after a receipt with the hash `expected`, or after none.
  unfoldable pub receipt_breaks : Option Bytes → Receipt → List Break
  unfolding prev_breaks stored_breaks hash_input
  receipt_breaks expected r =
      prev_breaks expected r
      ++ stored_breaks r.session r.seq
          (hash_input t.sha r.prev_hash r.tenant r.session r.seq r.event_id r.event_type
            r.payload_digest)
          r.hash r.signature r.signer_key_id

  -- What the receipt before, if there is one, makes the loop expect.
  unfoldable pub expected_after : Option Receipt → Bytes → Option Bytes
  unfolding text_eq
  expected_after none session = none
  expected_after (some r) session = if text_eq session r.session then some r.hash else none

  -- The loop, after the row `last`.
  unfoldable pub verify_receipt_chain : Option Receipt → List Receipt → List Break
  unfolding receipt_breaks expected_after
  verify_receipt_chain last [] = []
  verify_receipt_chain last (r ∷ rows) =
      receipt_breaks (expected_after last r.session) r ++ verify_receipt_chain (some r) rows

-- An event without a receipt.
pub record Gap : Type 0 where
  pub session : Bytes
  pub missing_seq : ℕ

unfoldable pub has_receipt : Bytes → ℕ → List Receipt → Bool
unfolding text_eq
has_receipt session seq [] = false
has_receipt session seq (r ∷ rows) =
    if text_eq r.session session && leb r.seq seq && leb seq r.seq
    then true
    else has_receipt session seq rows

-- The join of the events with the receipts.
unfoldable pub verify_gaps : List (Bytes × ℕ) → List Receipt → List Gap
unfolding has_receipt
verify_gaps [] rows = []
verify_gaps ((session, seq) ∷ events) rows =
    let rest = verify_gaps events rows in
    if has_receipt session seq rows
    then rest
    else record { session = session; missing_seq = seq } ∷ rest

-- A row of audit_anchors.
pub record Anchor : Type 0 where
  pub from_seq : ℕ
  pub to_seq : ℕ
  pub hash : Bytes
  pub signature : Bytes
  pub signer_key_id : Text

-- The hashes of the receipts numbered from+1 to `to`, in the order of their numbers.
abbrev pub hashes_between : ℕ → ℕ → List (ℕ × Bytes) → Bytes
hashes_between from to [] = []
hashes_between from to ((n, hash) ∷ receipts) =
    if ltb from n && leb n to
    then hash ++ hashes_between from to receipts
    else hashes_between from to receipts

unfoldable pub or_zeros : Option Bytes → Bytes
unfolding genesis_prev_hash
or_zeros none = genesis_prev_hash
or_zeros (some hash) = hash

module _ (t : Trust) (receipts : List (ℕ × Bytes)) where
  unfoldable pub recompute_anchor_hash : ℕ → ℕ → Option Bytes → Bytes
  unfolding or_zeros
  recompute_anchor_hash from to prev = t.sha (or_zeros prev ++ hashes_between from to receipts)

  -- The loop over the anchors, after one with the hash `prev`.
  unfoldable pub verify_anchors : Option Bytes → List Anchor → List Break
  unfolding recompute_anchor_hash stored_breaks
  verify_anchors prev [] = []
  verify_anchors prev (a ∷ anchors) =
      stored_breaks t [] a.to_seq (recompute_anchor_hash a.from_seq a.to_seq prev) a.hash
        a.signature a.signer_key_id
      ++ verify_anchors (some a.hash) anchors

abbrev max_number : List (ℕ × Bytes) → ℕ
max_number [] = 0
max_number ((n, hash) ∷ receipts) = let rest = max_number receipts in if ltb rest n then n else rest

pub data Anchored : Type 0 where
  nothing_new sign_failed : Anchored
  anchored : Anchor → Anchored

abbrev last_number : Option Anchor → ℕ
last_number none = 0
last_number (some a) = a.to_seq

abbrev last_anchor_hash : Option Anchor → Option Bytes
last_anchor_hash none = none
last_anchor_hash (some a) = some a.hash

abbrev signed_anchor : ℕ → ℕ → Bytes → Option (Bytes × Text) → Anchored
signed_anchor from to hash none = sign_failed
signed_anchor from to hash (some (sig, key)) =
    anchored
      (record { from_seq = from; to_seq = to; hash = hash; signature = sig; signer_key_id = key })

-- Anchor: the row that is inserted after the last one, over the receipts that came since.
unfoldable pub create_anchor : Trust → Signer → Option Anchor → List (ℕ × Bytes) → Anchored
unfolding recompute_anchor_hash
create_anchor t sign last receipts =
    let from = last_number last in
    let to = max_number receipts in
    let hash = recompute_anchor_hash t receipts from to (last_anchor_hash last) in
    if ltb from to then signed_anchor from to hash (sign hash) else nothing_new

pub record Report : Type 0 where
  pub breaks : List Break
  pub gaps : List Gap

-- Verify: `numbered` are the receipts' hashes by their numbers.
unfoldable pub verify :
    Trust → List (Bytes × ℕ) → List Receipt → List (ℕ × Bytes) → List Anchor → Report
unfolding verify_gaps verify_receipt_chain verify_anchors
verify t events rows numbered anchors = record {
  breaks = verify_receipt_chain t none rows ++ verify_anchors t numbered none anchors;
  gaps = verify_gaps events rows;
}

abbrev is_empty {ℓ} : {A : Type ℓ} → List A → Bool
is_empty [] = true
is_empty (x ∷ xs) = false

-- Report.OK
abbrev pub is_ok : Report → Bool
is_ok r = is_empty r.breaks && is_empty r.gaps
