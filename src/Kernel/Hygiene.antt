-- ===== src/Kernel/Hygiene.antt =====
-- kernel/hygiene.go: Hygiene, the pass over the history before each model call.
-- Ids are numbers, in the order of their texts. The set of seen ids is a list, the map of tool uses
-- the list of its values, in which a later event takes the place of one with the same id.
pub mod Pairs
use nexus_agent_demo.Prelude.{
  ℕ, Bool, true, false, not, ◌&&◌, ◌||◌, Option, none, some, List, [], ◌∷◌, ltb, ◌==◌,
  if◌then◌else◌,
}
use nexus_agent_demo.Prelude.Text.{Text}

-- The two types of event that the pass tells from the others.
pub data EventType : Type 0 where
  tool_use tool_result : EventType
  another : Text → EventType

pub record Event : Type 0 where
  pub event_id : ℕ
  pub kind : EventType
  pub pair_ref : Option ℕ
  pub tool_id : Option Text

pub data SyntheticReason : Type 0 where
  interrupted_before_execution : SyntheticReason

pub record SyntheticResult : Type 0 where
  pub pair_ref : ℕ
  pub tool_id : Option Text
  pub reason : SyntheticReason

abbrev pub is_use : EventType → Bool
is_use tool_use = true
is_use _ = false

abbrev pub is_result : EventType → Bool
is_result tool_result = true
is_result _ = false

-- toolUses[e.EventID] = e
unfoldable pub put : List Event → Event → List Event
put [] e = e ∷ []
put (u ∷ us) e = let rest = put us e in if u.event_id == e.event_id then e ∷ us else u ∷ rest

unfoldable pub tool_uses : List Event → List Event → List Event
tool_uses uses [] = uses
tool_uses uses (e ∷ es) = tool_uses (if is_use e.kind then put uses e else uses) es

-- Whether the id is a key of toolUses.
unfoldable pub has_use : List Event → ℕ → Bool
has_use [] r = false
has_use (u ∷ us) r = (u.event_id == r) || has_use us r

unfoldable pub seen_in : List ℕ → ℕ → Bool
seen_in [] r = false
seen_in (s ∷ ss) r = (s == r) || seen_in ss r

abbrev pub keeps_ref : List Event → List ℕ → Option ℕ → Bool
keeps_ref uses seen none = false
keeps_ref uses seen (some r) = has_use uses r && not (seen_in seen r)

-- Whether the event is appended to `kept`.
abbrev pub keeps : List Event → List ℕ → Event → Bool
keeps uses seen e = if is_result e.kind then keeps_ref uses seen e.pair_ref else true

abbrev pub mark_ref : List Event → List ℕ → Option ℕ → List ℕ
mark_ref uses seen none = seen
mark_ref uses seen (some r) = if has_use uses r && not (seen_in seen r) then r ∷ seen else seen

-- seenResultFor after the event.
abbrev pub mark : List Event → List ℕ → Event → List ℕ
mark uses seen e = if is_result e.kind then mark_ref uses seen e.pair_ref else seen

unfoldable pub kept : List Event → List ℕ → List Event → List Event
kept uses seen [] = []
kept uses seen (e ∷ es) =
    let rest = kept uses (mark uses seen e) es in if keeps uses seen e then e ∷ rest else rest

unfoldable pub seen_after : List Event → List ℕ → List Event → List ℕ
seen_after uses seen [] = seen
seen_after uses seen (e ∷ es) = seen_after uses (mark uses seen e) es

unfoldable pub synthetic : List ℕ → List Event → List SyntheticResult
synthetic seen [] = []
synthetic seen (u ∷ us) =
    let rest = synthetic seen us in
    if seen_in seen u.event_id
    then rest
    else record {
      pair_ref = u.event_id;
      tool_id = u.tool_id;
      reason = interrupted_before_execution;
    }
      ∷ rest

unfoldable pub insert : SyntheticResult → List SyntheticResult → List SyntheticResult
insert s [] = s ∷ []
insert s (t ∷ ts) =
    let rest = insert s ts in if ltb t.pair_ref s.pair_ref then t ∷ rest else s ∷ t ∷ ts

-- sort.Slice by the pair_ref, of which no two are equal.
unfoldable pub sort : List SyntheticResult → List SyntheticResult
sort [] = []
sort (s ∷ ss) = insert s (sort ss)

unfoldable pub hygiene : List Event → List Event × List SyntheticResult
hygiene history =
    let uses = tool_uses [] history in
    (kept uses [] history, sort (synthetic (seen_after uses [] history) uses))
