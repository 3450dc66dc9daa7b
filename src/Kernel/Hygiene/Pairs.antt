-- ===== src/Kernel/Hygiene/Pairs.antt =====
-- After the pass each tool use of the history has exactly one result, kept or synthetic.
use nexus_agent_demo.Prelude.{
  ℕ, ◌+◌, ◌≡◌, refl, ap, inl, inr, Bool, true, false, ◌&&◌, ◌||◌, Option, none, some, List, [], ◌∷◌,
  arith, ltb, ◌==◌, Bool-cases, if◌then◌else◌,
}
use nexus_agent_demo.Kernel.Hygiene.{
  Event, SyntheticResult, is_use, is_result, put, tool_uses, has_use, seen_in, mark, kept,
  seen_after, synthetic, insert, sort, hygiene,
}

abbrev pub bit : Bool → ℕ
bit true = 1
bit false = 0

abbrev pub refers : Option ℕ → ℕ → Bool
refers none r = false
refers (some s) r = s == r

-- How many results of the list answer the tool use `r`.
unfoldable pub count_results : ℕ → List Event → ℕ
count_results r [] = 0
count_results r (e ∷ es) = bit (is_result e.kind && refers e.pair_ref r) + count_results r es

unfoldable pub count_synthetic : ℕ → List SyntheticResult → ℕ
count_synthetic r [] = 0
count_synthetic r (s ∷ ss) = bit (s.pair_ref == r) + count_synthetic r ss

-- Whether the history has a tool use with this id.
unfoldable pub used_in : ℕ → List Event → Bool
used_in r [] = false
used_in r (e ∷ es) = (is_use e.kind && (e.event_id == r)) || used_in r es

-- How many entries of the map have the key `r`.
count_keys : ℕ → List Event → ℕ
count_keys r [] = 0
count_keys r (u ∷ us) = bit (u.event_id == r) + count_keys r us

count-insert :
    (r : ℕ) (s : SyntheticResult) (ss : List SyntheticResult)
    → count_synthetic r (insert s ss) ≡ bit (s.pair_ref == r) + count_synthetic r ss
unfolding insert count_synthetic
count-insert r s [] = refl
count-insert r s (t ∷ ts) = elim (Bool-cases (ltb t.pair_ref s.pair_ref)) [
  | inl h ↦ rw h (omega (arith, count-insert r s ts))
  | inr h ↦ rw h refl
]

count-sort :
    (r : ℕ) (ss : List SyntheticResult) → count_synthetic r (sort ss) ≡ count_synthetic r ss
unfolding sort count_synthetic
count-sort r [] = refl
count-sort r (s ∷ ss) = omega (arith, count-insert r s (sort ss), count-sort r ss)

has_use-put :
    (r : ℕ) (uses : List Event) (e : Event)
    → has_use (put uses e) r ≡ (has_use uses r || (e.event_id == r))
unfolding has_use put
has_use-put r [] e = ground arith
has_use-put r (u ∷ us) e = ground (arith, has_use-put r us e)

count_keys-put :
    (r : ℕ) (uses : List Event) (e : Event)
    → count_keys r (put uses e)
      ≡ count_keys r uses + (if has_use uses e.event_id then 0 else bit (e.event_id == r))
unfolding count_keys put has_use
count_keys-put r [] e = ground arith
count_keys-put r (u ∷ us) e = ground (arith, count_keys-put r us e)

has_use-tool_uses :
    (r : ℕ) (uses es : List Event)
    → has_use (tool_uses uses es) r ≡ (has_use uses r || used_in r es)
unfolding tool_uses used_in
has_use-tool_uses r uses [] = ground arith
has_use-tool_uses r uses (e ∷ es) = ground (
  arith,
  has_use-tool_uses r (if is_use e.kind then put uses e else uses) es,
  has_use-put r uses e,
)

-- Each key stands in the map once.
abbrev IsMap : List Event → Type 0
IsMap uses = (r : ℕ) → count_keys r uses ≡ bit (has_use uses r)

put-IsMap : (uses : List Event) (e : Event) → IsMap uses → IsMap (put uses e)
put-IsMap uses e m r = elim (Bool-cases (e.event_id == r)) [
  | inl h ↦ (let e' : e.event_id ≡ r = ground arith in added (ap (has_use uses) e') h)
  | inr h ↦ other h
]
  where
    added :
        has_use uses e.event_id ≡ has_use uses r
        → (e.event_id == r) ≡ true
        → count_keys r (put uses e) ≡ bit (has_use (put uses e) r)
    added q h = ground (arith, count_keys-put r uses e, has_use-put r uses e, m r)

    other : (e.event_id == r) ≡ false → count_keys r (put uses e) ≡ bit (has_use (put uses e) r)
    other h = ground (arith, count_keys-put r uses e, has_use-put r uses e, m r)

tool_uses-IsMap : (uses es : List Event) → IsMap uses → IsMap (tool_uses uses es)
unfolding tool_uses
tool_uses-IsMap uses [] m = m
tool_uses-IsMap uses (e ∷ es) m =
    tool_uses-IsMap (if is_use e.kind then put uses e else uses) es (either (is_use e.kind))
  where
    either : (b : Bool) → IsMap (if b then put uses e else uses)
    either true = put-IsMap uses e m
    either false = m

count_synthetic-synthetic :
    (r : ℕ) (seen : List ℕ) (uses : List Event)
    → count_synthetic r (synthetic seen uses) ≡ (if seen_in seen r then 0 else count_keys r uses)
unfolding count_synthetic synthetic count_keys
count_synthetic-synthetic r seen [] = ground arith
count_synthetic-synthetic r seen (u ∷ us) =
    let rest = count_synthetic-synthetic r seen us in
    elim (Bool-cases (u.event_id == r)) [
      | inl h ↦
          (let e' : u.event_id ≡ r = ground arith in
            let q : seen_in seen u.event_id ≡ seen_in seen r = ap (seen_in seen) e' in
            ground (arith, rest))
      | inr h ↦ ground (arith, rest)
    ]

-- A kept result marks its id, and no other event does.
count_kept :
    (r : ℕ) (uses : List Event) (seen : List ℕ) (es : List Event)
    → has_use uses r ≡ true
    → count_results r (kept uses seen es) + bit (seen_in seen r)
      ≡ bit (seen_in (seen_after uses seen es) r)
unfolding count_results kept seen_after seen_in
count_kept r uses seen [] h = omega arith
count_kept r uses seen (e ∷ es) h = ground (arith, count_kept r uses (mark uses seen e) es h)

count_unused :
    (r : ℕ) (uses : List Event) (seen : List ℕ) (es : List Event)
    → has_use uses r ≡ false
    → count_results r (kept uses seen es) ≡ 0
unfolding count_results kept
count_unused r uses seen [] h = refl
count_unused r uses seen (e ∷ es) h = ground (arith, count_unused r uses (mark uses seen e) es h)

-- After the pass, each tool use of the history has exactly one result, kept from the history or
-- synthetic, and an id that no tool use has gets none.
pub each_use_has_one_result :
    (history : List Event) (r : ℕ)
    → count_results r (hygiene history).0 + count_synthetic r (hygiene history).1
      ≡ bit (used_in r history)
unfolding hygiene seen_in has_use
each_use_has_one_result history r =
    let uses = tool_uses [] history in
    let seen = seen_after uses [] history in
    elim (Bool-cases (has_use uses r)) [
      | inl h ↦ ground (
        arith,
        count_kept r uses [] history h,
        keys,
        count-sort r (synthetic seen uses),
        count_synthetic-synthetic r seen uses,
        has_use-tool_uses r [] history,
      )
      | inr h ↦ ground (
        arith,
        count_unused r uses [] history h,
        keys,
        count-sort r (synthetic seen uses),
        count_synthetic-synthetic r seen uses,
        has_use-tool_uses r [] history,
      )
    ]
  where
    keys : count_keys r (tool_uses [] history) ≡ bit (has_use (tool_uses [] history) r)
    keys = tool_uses-IsMap [] history (λ r. unfold count_keys in unfold has_use in refl) r

-- The events of the list that are no results.
abbrev pub others : List Event → List Event
others [] = []
others (e ∷ es) = if is_result e.kind then others es else e ∷ others es

others-kept :
    (uses : List Event) (seen : List ℕ) (es : List Event) → others (kept uses seen es) ≡ others es
unfolding kept
others-kept uses seen [] = refl
others-kept uses seen (e ∷ es) = ground (arith, others-kept uses (mark uses seen e) es)

-- The pass keeps all events that are no tool results, in their order.
pub hygiene_keeps_others : (history : List Event) → others (hygiene history).0 ≡ others history
unfolding hygiene
hygiene_keeps_others history = others-kept (tool_uses [] history) [] history
