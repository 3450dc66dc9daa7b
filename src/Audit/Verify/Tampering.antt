-- ===== src/Audit/Verify/Tampering.antt =====
-- Two stored chains of a session that verify and end with one hash tell the same history.
use nexus_agent_demo.Prelude.{
  ℕ, ◌≡◌, ◌≢◌, refl, sym, ap, ◌∙◌, ◌⊎◌, inl, inr, false, Option, none, some, List, [], ◌∷◌, ◌++◌,
  arith, length, All, Any, Bool-cases,
}
use nexus_agent_demo.Prelude.Text.{text_eq, text_eq_sound, text_eq_refl}
use nexus_agent_demo.Audit.Chain.{Bytes, Receipt, genesis_prev_hash, zeros, hash_input, or_genesis}
use nexus_agent_demo.Audit.Verify.{
  Break, Trust, prev_breaks, bytes_equal, bytes_of, expected_after, receipt_breaks, stored_breaks,
  verify_receipt_chain,
}
use nexus_agent_demo.Audit.Verify.Encoding.{
  IsSameEvent, IsSized, append-split, encoded, encoded-same, encoded-unpadded,
}

-- `older`, newest first, with the rows that follow it put before it.
abbrev onto : List Receipt → List Receipt → List Receipt
onto older [] = older
onto older (r ∷ rows) = onto (r ∷ older) rows

abbrev pub newest_first : List Receipt → List Receipt
newest_first rows = onto [] rows

abbrev newest : List Receipt → Option Receipt
newest [] = none
newest (r ∷ older) = some r

abbrev hash_of : List Receipt → Option Bytes
hash_of [] = none
hash_of (r ∷ older) = some r.hash

-- The hash of the last row.
abbrev pub last_hash : List Receipt → Option Bytes
last_hash rows = hash_of (newest_first rows)

abbrev pub AreSameEvents : List Receipt → List Receipt → Type 0
AreSameEvents [] [] = Unit
AreSameEvents (r ∷ rs) (s ∷ ss) = IsSameEvent r s × AreSameEvents rs ss
AreSameEvents _ _ = ⊥

both_empty {ℓ} : {A : Type ℓ} (xs ys : List A) → xs ++ ys ≡ [] → (xs ≡ []) × (ys ≡ [])
both_empty [] ys h = (refl, h)
both_empty (x ∷ xs) ys h = absurd cc

differ : (x y : Bytes) → text_eq x y ≡ false → x ≢ y
differ x y h d = absurd (cc (text_eq_refl x, h, d))

Any-map :
    (P Q : Receipt → Type 0)
    → ((r : Receipt) → P r → Q r)
    → (rows : List Receipt) → Any P rows
    → Any Q rows
Any-map P Q k [] h = h
Any-map P Q k (r ∷ rows) (inl h) = inl (k r h)
Any-map P Q k (r ∷ rows) (inr h) = inr (Any-map P Q k rows h)

-- What a row stores as the hash before, where the verification expects `e`: that, or an empty one
-- where none is expected.
stored_prev :
    (p e : Option Bytes)
    → ((b : Bytes) → e ≡ some b → length b ≡ 32)
    → bytes_of p ≡ bytes_of e
    → ((e ≡ none) × (or_genesis p ≡ [])) ⊎ (or_genesis p ≡ or_genesis e)
unfolding or_genesis
stored_prev none none k q = inr refl
stored_prev none (some b) k q = absurd (omega (arith, ap length q, k b refl))
stored_prev (some x) none k q = inl (refl, q)
stored_prev (some x) (some b) k q = inr q

none_before : (older : List Receipt) → hash_of older ≡ none → older ≡ []
none_before [] e = refl
none_before (r ∷ older) e = absurd cc

module _ (t : Trust) (tenant session : Bytes) where
  -- A row of the tenant's session, with columns of their widths.
  abbrev pub IsOurs : Receipt → Type 0
  IsOurs r = (r.tenant ≡ tenant) × (r.session ≡ session) × IsSized r

  -- What a clean verification shows of the rows, newest first.
  abbrev IsLinked : List Receipt → Type 0
  IsLinked [] = Unit
  IsLinked (r ∷ older) =
      (bytes_of r.prev_hash ≡ bytes_of (hash_of older))
      × (r.hash ≡ t.sha (encoded tenant session r))
      × IsLinked older

  expected_ours :
      (older : List Receipt) (r : Receipt)
      → All IsOurs older
      → IsOurs r
      → expected_after t (newest older) r.session ≡ hash_of older
  unfolding expected_after
  expected_ours [] r h k = refl
  expected_ours (q ∷ older) r h k = rw (k.1, h.0.1, text_eq_refl session) refl

  clean-stored :
      (s : Bytes) (seq : ℕ) (want hash signature key : Bytes)
      → stored_breaks t s seq want hash signature key ≡ []
      → want ≡ hash
  unfolding stored_breaks bytes_equal
  clean-stored s seq want hash signature key h = elim (Bool-cases (text_eq want hash)) [
    | inl e ↦ text_eq_sound want hash e
    | inr e ↦ absurd cc
  ]

  clean-prev :
      (expected : Option Bytes) (r : Receipt)
      → prev_breaks t expected r ≡ []
      → bytes_of r.prev_hash ≡ bytes_of expected
  unfolding prev_breaks bytes_equal
  clean-prev expected r h = elim (Bool-cases (text_eq (bytes_of r.prev_hash) (bytes_of expected))) [
    | inl e ↦ text_eq_sound (bytes_of r.prev_hash) (bytes_of expected) e
    | inr e ↦ absurd cc
  ]

  ours_hash :
      (r : Receipt)
      → IsOurs r
      → hash_input t.sha r.prev_hash r.tenant r.session r.seq r.event_id r.event_type
          r.payload_digest
        ≡ t.sha (encoded tenant session r)
  unfolding hash_input
  ours_hash r h = rw (h.0, h.1) refl

  clean-receipt :
      (expected : Option Bytes) (r : Receipt)
      → IsOurs r
      → receipt_breaks t expected r ≡ []
      → (bytes_of r.prev_hash ≡ bytes_of expected) × (r.hash ≡ t.sha (encoded tenant session r))
  unfolding receipt_breaks
  clean-receipt expected r h e =
      let want : Bytes =
        hash_input t.sha r.prev_hash r.tenant r.session r.seq r.event_id r.event_type
          r.payload_digest in
      let stored : List Break =
        stored_breaks t r.session r.seq want r.hash r.signature r.signer_key_id in
      let parts = both_empty (prev_breaks t expected r) stored e in
      (
        clean-prev expected r parts.0,
        sym (clean-stored r.session r.seq want r.hash r.signature r.signer_key_id parts.1)
            ∙ ours_hash r h,
      )

  onto-IsLinked :
      (older rows : List Receipt)
      → All IsOurs older
      → All IsOurs rows
      → IsLinked older
      → verify_receipt_chain t (newest older) rows ≡ []
      → IsLinked (onto older rows) × All IsOurs (onto older rows)
  unfolding verify_receipt_chain
  onto-IsLinked older [] h k l e = (l, h)
  onto-IsLinked older (r ∷ rows) h k l e =
      let parts =
        both_empty (receipt_breaks t (expected_after t (newest older) r.session) r)
          (verify_receipt_chain t (some r) rows) e in
      let c = clean-receipt (expected_after t (newest older) r.session) r k.0 parts.0 in
      onto-IsLinked (r ∷ older) rows (k.0, h) k.1
        (c.0 ∙ ap bytes_of (expected_ours older r h k.0), c.1, l) parts.1

  -- Two receipts, one of each list, whose texts differ and have one hash.
  abbrev pub Collide : List Receipt → List Receipt → Type 0
  Collide ns ms =
      Any
        (λ r.
          Any
            (λ s.
              (encoded tenant session r ≢ encoded tenant session s)
              × (t.sha (encoded tenant session r) ≡ t.sha (encoded tenant session s)))
            ms)
        ns

  -- The hash of the receipt's text is the one that stands for no receipt, or the tenant's id with the
  -- session's.
  abbrev pub HitsGiven : Receipt → Type 0
  HitsGiven r =
      (t.sha (encoded tenant session r) ≡ genesis_prev_hash)
      ⊎ (t.sha (encoded tenant session r) ≡ tenant ++ session)

  -- The hash fails at the texts of these very receipts.
  abbrev pub IsBroken : List Receipt → List Receipt → Type 0
  IsBroken ns ms = Collide ns ms ⊎ Any HitsGiven ns ⊎ Any HitsGiven ms

  wider : (r s : Receipt) (ns ms : List Receipt) → IsBroken ns ms → IsBroken (r ∷ ns) (s ∷ ms)
  wider r s ns ms (inl c) = inl (inr (Any-map _ _ (λ x h. inr h) ns c))
  wider r s ns ms (inr (inl h)) = inr (inl (inr h))
  wider r s ns ms (inr (inr h)) = inr (inr (inr h))

  module _ (width : (x : Bytes) → length (t.sha x) ≡ 32) (tenant_width : length tenant ≡ 16)
      (session_width : length session ≡ 16) (not_nil : tenant ≢ zeros 16) where
    hash_of-length :
        (older : List Receipt)
        → IsLinked older
        → (b : Bytes) → hash_of older ≡ some b
        → length b ≡ 32
    hash_of-length [] l b e = absurd cc
    hash_of-length (r ∷ older) l b e =
        let q : b ≡ t.sha (encoded tenant session r) = cc (l.1, e) in
        ap length q ∙ width (encoded tenant session r)

    before-length :
        (older : List Receipt) → IsLinked older → length (or_genesis (hash_of older)) ≡ 32
    unfolding or_genesis genesis_prev_hash
    before-length [] l = refl
    before-length (r ∷ older) l = hash_of-length (r ∷ older) l r.hash refl

    stored_before :
        (r : Receipt) (older : List Receipt)
        → IsLinked (r ∷ older)
        → ((older ≡ []) × (or_genesis r.prev_hash ≡ []))
          ⊎ (or_genesis r.prev_hash ≡ or_genesis (hash_of older))
    stored_before r older l =
        elim (stored_prev r.prev_hash (hash_of older) (hash_of-length older l.2) l.0) [
          | inl (e, p) ↦ inl (none_before older e, p)
          | inr p ↦ inr p
        ]

    genesis_differs : tenant ++ session ≢ genesis_prev_hash
    unfolding genesis_prev_hash
    genesis_differs e =
        not_nil ((append-split tenant (zeros 16) session (zeros 16) tenant_width e).0)

    hit :
        (older : List Receipt)
        → IsLinked older
        → tenant ++ session ≡ or_genesis (hash_of older)
        → Any HitsGiven older
    unfolding or_genesis
    hit [] l e = absurd (genesis_differs e)
    hit (r ∷ older) l e = inl (inr (sym l.1 ∙ sym e))

    -- An empty hash before one of the receipts, none or a hash before the other.
    unpadded :
        (r s : Receipt) (ms : List Receipt)
        → IsLinked ms
        → or_genesis r.prev_hash ≡ []
        → or_genesis s.prev_hash ≡ or_genesis (hash_of ms)
        → encoded tenant session r ≡ encoded tenant session s
        → Any HitsGiven ms
    unpadded r s ms l p q e = hit ms l (
        encoded-unpadded tenant session r s tenant_width session_width p
          (ap length q ∙ before-length ms l) e
        ∙ q)

    -- The heads' texts are the same, and the rest is known to agree where it ends with one hash.
    same_text :
        (r s : Receipt) (ns ms : List Receipt)
        → IsLinked (r ∷ ns)
        → IsLinked (s ∷ ms)
        → IsSized r
        → IsSized s
        → encoded tenant session r ≡ encoded tenant session s
        → (or_genesis (hash_of ns) ≡ or_genesis (hash_of ms) → AreSameEvents ns ms ⊎ IsBroken ns ms)
        → AreSameEvents (r ∷ ns) (s ∷ ms) ⊎ IsBroken (r ∷ ns) (s ∷ ms)
    same_text r s ns ms ln lm h k e ih = elim (stored_before r ns ln) [
      | inl (n, p) ↦ elim (stored_before s ms lm) [
        | inl (m, q) ↦
            let same = encoded-same tenant session r s h k (ap length (p ∙ sym q)) e in
            let rest : AreSameEvents ns ms = rw (n, m) tt in inl (same.1, rest)
        | inr q ↦ inr (inr (inr (inr (unpadded r s ms lm.2 p q e))))
      ]
      | inr p ↦ elim (stored_before s ms lm) [
        | inl (m, q) ↦ inr (inr (inl (inr (unpadded s r ns ln.2 q p (sym e)))))
        | inr q ↦
            let one_length : length (or_genesis r.prev_hash) ≡ length (or_genesis s.prev_hash) =
              ap length p ∙ before-length ns ln.2 ∙ sym (ap length q ∙ before-length ms lm.2) in
            let same = encoded-same tenant session r s h k one_length e in
            elim (ih (sym p ∙ same.0 ∙ q)) [
              | inl x ↦ inl (same.1, x)
              | inr x ↦ inr (wider r s ns ms x)
            ]
      ]
    ]

    agreeing :
        (ns ms : List Receipt)
        → IsLinked ns
        → IsLinked ms
        → All IsOurs ns
        → All IsOurs ms
        → or_genesis (hash_of ns) ≡ or_genesis (hash_of ms)
        → AreSameEvents ns ms ⊎ IsBroken ns ms
    unfolding or_genesis
    agreeing [] [] ln lm on om e = inl tt
    agreeing [] (s ∷ ms) ln lm on om e = inr (inr (inr (inl (inl (sym lm.1 ∙ sym e)))))
    agreeing (r ∷ ns) [] ln lm on om e = inr (inr (inl (inl (inl (sym ln.1 ∙ e)))))
    agreeing (r ∷ ns) (s ∷ ms) ln lm on om e =
        let x : Bytes = encoded tenant session r in
        let y : Bytes = encoded tenant session s in
        elim (Bool-cases (text_eq x y)) [
          | inl same ↦
              same_text r s ns ms ln lm on.0.2 om.0.2 (text_eq_sound x y same)
                (agreeing ns ms ln.2 lm.2 on.1 om.1)
          | inr other ↦ inr (inl (inl (inl (differ x y other, sym ln.1 ∙ e ∙ lm.1))))
        ]

    -- Two sets of rows of one session of a tenant that both verify without a break, and whose last
    -- rows store one hash, tell the same history: the same events with the same types and payload
    -- digests in the same order, none added, left out or changed at either end. Else the hash fails
    -- at the texts of these rows: a receipt of the one and one of the other have different texts with
    -- one hash, or the hash of one receipt's text is all zeros, or is the tenant's id followed by the
    -- session's. The hash is taken to give 32 bytes whatever the text, ids are 16 bytes, the tenant's
    -- is not the nil one, and a seq and the length of a type are below 2 ^ 63 and 2 ^ 32. Of the hash
    -- before that a row stores nothing is assumed.
    pub verify_receipt_chain-AreSameEvents :
        (rows rows' : List Receipt)
        → All IsOurs rows
        → All IsOurs rows'
        → verify_receipt_chain t none rows ≡ []
        → verify_receipt_chain t none rows' ≡ []
        → last_hash rows ≡ last_hash rows'
        → AreSameEvents (newest_first rows) (newest_first rows')
          ⊎ IsBroken (newest_first rows) (newest_first rows')
    verify_receipt_chain-AreSameEvents rows rows' o o' c c' e =
        let f = onto-IsLinked [] rows tt o tt c in
        let g = onto-IsLinked [] rows' tt o' tt c' in
        agreeing (newest_first rows) (newest_first rows') f.0 g.0 f.1 g.1 (ap or_genesis e)
