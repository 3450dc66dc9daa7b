-- ===== src/Audit/Chain.antt =====
-- internal/audit/chain.go and postgres/chain.go: a receipt's hash, and the receipt that extends a
-- chain. sha256 is an argument; ids are their bytes, and `none` is a NULL column.
use nexus_agent_demo.Prelude.{
  ℕ, zero, suc, ◌/◌, ◌%◌, Option, none, some, List, [], ◌∷◌, ◌++◌, length, ltb, if◌then◌else◌,
}
use nexus_agent_demo.Prelude.Text.{Text, text_eq}

abbrev pub Bytes : Type 0
Bytes = List ℕ

-- The columns of audit_receipts but the row's own id, number and time.
pub record Receipt : Type 0 where
  pub tenant : Bytes
  pub session : Bytes
  pub seq : ℕ
  pub event_id : Bytes
  pub event_type : Bytes
  pub payload_digest : Bytes
  pub prev_hash : Option Bytes
  pub hash : Bytes
  pub signature : Bytes
  pub signer_key_id : Text

abbrev pub zeros : ℕ → Bytes
zeros zero = []
zeros (suc n) = 0 ∷ zeros n

unfoldable pub genesis_prev_hash : Bytes
genesis_prev_hash = zeros 32

unfoldable pub or_genesis : Option Bytes → Bytes
unfolding genesis_prev_hash
or_genesis none = genesis_prev_hash
or_genesis (some prev) = prev

-- The last `w` bytes of a number, the highest one first.
unfoldable pub big_endian : ℕ → ℕ → Bytes
big_endian zero n = []
big_endian (suc w) n = big_endian w (n / 256) ++ (n % 256) ∷ []

-- What is hashed: each part but the last two has a fixed width.
unfoldable pub encoding : Option Bytes → Bytes → Bytes → ℕ → Bytes → Bytes → Bytes → Bytes
unfolding or_genesis big_endian
encoding prev tenant session seq event_id event_type digest =
    or_genesis prev
    ++ (tenant
        ++ (session
            ++ (big_endian 8 seq
                ++ (event_id ++ (big_endian 4 (length event_type) ++ (event_type ++ digest))))))

module _ (sha : Bytes → Bytes) where
  unfoldable pub hash_input : Option Bytes → Bytes → Bytes → ℕ → Bytes → Bytes → Bytes → Bytes
  unfolding encoding
  hash_input prev tenant session seq event_id event_type digest =
      sha (encoding prev tenant session seq event_id event_type digest)

abbrev later : Receipt → Option Receipt → Option Receipt
later r none = some r
later r (some s) = if ltb r.seq s.seq then some s else some r

-- The session's receipt with the highest seq.
unfoldable pub head_receipt : Bytes → List Receipt → Option Receipt
unfolding text_eq
head_receipt session [] = none
head_receipt session (r ∷ receipts) =
    let rest = head_receipt session receipts in
    if text_eq r.session session then later r rest else rest

abbrev hash_of : Option Receipt → Option Bytes
hash_of none = none
hash_of (some r) = some r.hash

unfoldable pub head_hash : Bytes → List Receipt → Option Bytes
unfolding head_receipt
head_hash session receipts = hash_of (head_receipt session receipts)

-- What the signer answers for a hash: a signature and its key's id.
abbrev pub Signer : Type 0
Signer = Bytes → Option (Bytes × Text)

module _ (sha : Bytes → Bytes) (sign : Signer) where
  unfoldable pub signed_receipt :
      Option Bytes
      → Bytes
      → Bytes
      → ℕ
      → Bytes
      → Bytes
      → Bytes
      → Option (Bytes × Text)
      → Option Receipt
  unfolding hash_input
  signed_receipt prev tenant session seq event_id event_type digest none = none
  signed_receipt prev tenant session seq event_id event_type digest (some (sig, key)) =
      some (record {
        tenant = tenant;
        session = session;
        seq = seq;
        event_id = event_id;
        event_type = event_type;
        payload_digest = digest;
        prev_hash = prev;
        hash = hash_input sha prev tenant session seq event_id event_type digest;
        signature = sig;
        signer_key_id = key;
      })

  -- Chain.Append: the receipt that is inserted, none where the signer fails.
  unfoldable pub append_receipt :
      List Receipt → Bytes → Bytes → ℕ → Bytes → Bytes → Bytes → Option Receipt
  unfolding signed_receipt head_hash hash_input
  append_receipt receipts tenant session seq event_id event_type digest =
      let prev = head_hash session receipts in
      signed_receipt prev tenant session seq event_id event_type digest
        (sign (hash_input sha prev tenant session seq event_id event_type digest))
