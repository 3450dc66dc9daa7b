-- ===== src/Audit/Examples.antt =====
-- A chain of two receipts, and one that was signed anew.
use nexus_agent_demo.Prelude.{
  ℕ, zero, suc, ◌+◌, ◌*◌, ◌≡◌, ◌≢◌, refl, ◌⊎◌, true, Option, none, some, List, [], ◌∷◌, arith,
  length, All,
}
use nexus_agent_demo.Prelude.Text.{codes}
use nexus_agent_demo.Audit.Chain.{
  Bytes, Receipt, append_receipt, big_endian, encoding, genesis_prev_hash, or_genesis, zeros,
}
use nexus_agent_demo.Audit.Verify.{Trust, hash_mismatch, receipt_breaks, verify_receipt_chain}
use nexus_agent_demo.Audit.Verify.Encoding.{length-big_endian}
use nexus_agent_demo.Audit.Verify.Tampering.{
  AreSameEvents, IsBroken, IsOurs, newest_first, verify_receipt_chain-AreSameEvents,
}

abbrev fill : ℕ → ℕ → Bytes
fill zero n = []
fill (suc w) n = n ∷ fill w n

-- The text as a number in base 257, without a byte of 0 or 256 at its end being lost.
abbrev number_of : Bytes → ℕ
number_of [] = 1
number_of (c ∷ x) = c + 257 * number_of x

-- A hash of 32 bytes: the last 32 bytes of that number.
abbrev base_hash : Bytes → Bytes
base_hash x = big_endian 32 (number_of x)

base_hash-length : (x : Bytes) → length (base_hash x) ≡ 32
base_hash-length x = length-big_endian 32 (number_of x)

abbrev trust : Trust
trust = record { sha = base_hash; current_key_id = codes "k"; verifies = λ hash signature. true }

abbrev id_of : ℕ → Bytes
id_of n = fill 16 n

abbrev receipt_of : ℕ → Option Bytes → Bytes → Bytes → Receipt
receipt_of n prev hash signature = record {
  tenant = id_of 1;
  session = id_of 2;
  seq = n;
  event_id = id_of n;
  event_type = codes "t";
  payload_digest = fill 32 n;
  prev_hash = prev;
  hash = hash;
  signature = signature;
  signer_key_id = codes "k";
}

abbrev hash_of : ℕ → Option Bytes → Bytes
hash_of n prev = base_hash (encoding prev (id_of 1) (id_of 2) n (id_of n) (codes "t") (fill 32 n))

abbrev two_receipts : Bytes → List Receipt
two_receipts signature =
    receipt_of 1 none (hash_of 1 none) signature
    ∷ receipt_of 2 (some (hash_of 1 none)) (hash_of 2 (some (hash_of 1 none))) signature
    ∷ []

first_is_appended :
    append_receipt base_hash
      (λ hash. some (codes "s", codes "k"))
      []
      (id_of 1)
      (id_of 2)
      1
      (id_of 1)
      (codes "t")
      (fill 32 1)
    ≡ some (receipt_of 1 none (hash_of 1 none) (codes "s"))
unfolding append_receipt big_endian encoding or_genesis genesis_prev_hash
first_is_appended = refl

changed_seq_breaks :
    verify_receipt_chain trust none (receipt_of 1 none (fill 32 9) [] ∷ [])
    ≡ record { session = id_of 2; seq = 1; kind = hash_mismatch } ∷ []
unfolding verify_receipt_chain
changed_seq_breaks = refl

two_receipts-IsOurs :
    (signature : Bytes) → All (IsOurs trust (id_of 1) (id_of 2)) (two_receipts signature)
unfolding genesis_prev_hash or_genesis
two_receipts-IsOurs signature = (
  (refl, refl, record { id = refl; seq = omega arith; type = omega arith }),
  ((refl, refl, record { id = refl; seq = omega arith; type = omega arith }), tt),
)

verifies : (signature : Bytes) → verify_receipt_chain trust none (two_receipts signature) ≡ []
unfolding verify_receipt_chain receipt_breaks big_endian encoding or_genesis genesis_prev_hash
verifies signature = refl

not_nil : id_of 1 ≢ zeros 16
not_nil e = cc

verify_receipt_chain-AreSameEvents_example :
    AreSameEvents
      (newest_first (two_receipts (codes "s")))
      (newest_first (two_receipts (codes "z")))
    ⊎ IsBroken trust
        (id_of 1)
        (id_of 2)
        (newest_first (two_receipts (codes "s")))
        (newest_first (two_receipts (codes "z")))
verify_receipt_chain-AreSameEvents_example =
    verify_receipt_chain-AreSameEvents trust (id_of 1) (id_of 2) base_hash-length refl refl not_nil
      (two_receipts (codes "s")) (two_receipts (codes "z")) (two_receipts-IsOurs (codes "s"))
      (two_receipts-IsOurs (codes "z")) (verifies (codes "s")) (verifies (codes "z")) refl
