-- ===== src/Audit/Verify/Encoding.antt =====
-- What is hashed for a receipt gives back its fields.
use nexus_agent_demo.Prelude.{
  ℕ, zero, suc, ◌*◌, ◌/◌, ◌%◌, ◌^◌, ◌<◌, ◌≡◌, refl, ap, sym, ◌∙◌, [], ◌∷◌, ◌++◌, arith, length,
  length-append,
}
use nexus_agent_demo.Audit.Chain.{Bytes, Receipt, big_endian, encoding, or_genesis}

pub append-split :
    (xs ys us vs : Bytes) → length xs ≡ length ys → xs ++ us ≡ ys ++ vs → (xs ≡ ys) × (us ≡ vs)
append-split [] [] us vs h e = (refl, e)
append-split [] (y ∷ ys) us vs h e = absurd (omega arith)
append-split (x ∷ xs) [] us vs h e = absurd (omega arith)
append-split (x ∷ xs) (y ∷ ys) us vs h e =
    let rest : xs ++ us ≡ ys ++ vs = cc in
    let k = append-split xs ys us vs (omega arith) rest in let q : x ≡ y = cc in (cc (k.0, q), k.1)

pub length-big_endian : (w n : ℕ) → length (big_endian w n) ≡ w
unfolding big_endian
length-big_endian zero n = refl
length-big_endian (suc w) n =
    omega
      (arith, length-append (big_endian w (n / 256)) (n % 256 ∷ []), length-big_endian w (n / 256))

same_length : (w m n : ℕ) → length (big_endian w m) ≡ length (big_endian w n)
same_length w m n = length-big_endian w m ∙ sym (length-big_endian w n)

quotient_below : (w m : ℕ) → m < 256 ^ suc w → m / 256 < 256 ^ w
quotient_below w m h = let e : 256 ^ suc w ≡ 256 ^ w * 256 = omega arith in omega (arith, e, h)

big_endian-same : (w m n : ℕ) → m < 256 ^ w → n < 256 ^ w → big_endian w m ≡ big_endian w n → m ≡ n
unfolding big_endian
big_endian-same zero m n h k e = omega arith
big_endian-same (suc w) m n h k e =
    let s =
      append-split (big_endian w (m / 256)) (big_endian w (n / 256)) (m % 256 ∷ []) (n % 256 ∷ [])
        (same_length w (m / 256) (n / 256)) e in
    let low : m % 256 ≡ n % 256 = cc (s.1) in
    let high : m / 256 ≡ n / 256 =
      big_endian-same w (m / 256) (n / 256) (quotient_below w m h) (quotient_below w n k) s.0 in
    omega (arith, low, high)

-- The widths of the columns: an id of 16 bytes, and the ranges of the seq and of the type's length.
pub record IsSized (r : Receipt) : Type 0 where
  pub id : length r.event_id ≡ 16
  pub seq : r.seq < 2 ^ 63
  pub type : length r.event_type < 2 ^ 32

-- The receipts tell the same of the same event.
pub record IsSameEvent (r s : Receipt) : Type 0 where
  pub seq : r.seq ≡ s.seq
  pub event_id : r.event_id ≡ s.event_id
  pub event_type : r.event_type ≡ s.event_type
  pub payload_digest : r.payload_digest ≡ s.payload_digest

abbrev pub encoded : Bytes → Bytes → Receipt → Bytes
encoded tenant session r =
    encoding r.prev_hash tenant session r.seq r.event_id r.event_type r.payload_digest

pub encoded-same :
    (tenant session : Bytes) (r s : Receipt)
    → IsSized r
    → IsSized s
    → length (or_genesis r.prev_hash) ≡ length (or_genesis s.prev_hash)
    → encoded tenant session r ≡ encoded tenant session s
    → (or_genesis r.prev_hash ≡ or_genesis s.prev_hash) × IsSameEvent r s
unfolding encoding
encoded-same tenant session r s h k p e =
    let a = append-split (or_genesis r.prev_hash) (or_genesis s.prev_hash) _ _ p e in
    let b = append-split tenant tenant _ _ refl a.1 in
    let c = append-split session session _ _ refl b.1 in
    let d =
      append-split (big_endian 8 r.seq) (big_endian 8 s.seq) _ _ (same_length 8 r.seq s.seq) c.1 in
    let f = append-split r.event_id s.event_id _ _ (h.id ∙ sym k.id) d.1 in
    let g =
      append-split (big_endian 4 (length r.event_type)) (big_endian 4 (length s.event_type)) _ _
        (same_length 4 (length r.event_type) (length s.event_type)) f.1 in
    let len : length r.event_type ≡ length s.event_type =
      big_endian-same 4 (length r.event_type) (length s.event_type) (omega (arith, h.type))
        (omega (arith, k.type)) g.0 in
    let i = append-split r.event_type s.event_type r.payload_digest s.payload_digest len g.1 in
    (
      a.0,
      record {
        seq = big_endian-same 8 r.seq s.seq (omega (arith, h.seq)) (omega (arith, k.seq)) d.0;
        event_id = f.0;
        event_type = i.0;
        payload_digest = i.1;
      },
    )

append_assoc : (xs ys zs : Bytes) → (xs ++ ys) ++ zs ≡ xs ++ (ys ++ zs)
append_assoc [] ys zs = refl
append_assoc (x ∷ xs) ys zs = ap (λ (ws : Bytes). x ∷ ws) (append_assoc xs ys zs)

-- What is hashed for a receipt with an empty hash before it begins with the two ids: a text with a hash
-- before it is the same only if that hash is the two ids.
pub encoded-unpadded :
    (tenant session : Bytes) (r s : Receipt)
    → length tenant ≡ 16
    → length session ≡ 16
    → or_genesis r.prev_hash ≡ []
    → length (or_genesis s.prev_hash) ≡ 32
    → encoded tenant session r ≡ encoded tenant session s
    → tenant ++ session ≡ or_genesis s.prev_hash
unfolding encoding
encoded-unpadded tenant session r s t u p l e =
    let both : length (tenant ++ session) ≡ length (or_genesis s.prev_hash) =
      omega (arith, length-append tenant session, t, u, l) in
    let plain : tenant ++ (session ++ _) ≡ or_genesis s.prev_hash ++ _ = rw p at e in
    (append-split (tenant ++ session) (or_genesis s.prev_hash) _ _ both
      (append_assoc tenant session _ ∙ plain)).0
