-- ===== src/Kernel/Examples.antt =====
-- Examples of the theorems on the kernel, at concrete inputs.
use nexus_agent_demo.Prelude.{◌+◌, ◌≡◌, refl, Option, none, some, List, [], ◌∷◌, ℕ}
use nexus_agent_demo.Prelude.Text.{codes}
use nexus_agent_demo.Kernel.Hygiene.{
  Event, EventType, tool_use, tool_result, another, tool_uses, kept, put, has_use, seen_in, hygiene,
}
use nexus_agent_demo.Kernel.Hygiene.Pairs.{
  bit, used_in, count_results, count_synthetic, others, each_use_has_one_result,
  hygiene_keeps_others,
}

abbrev event : ℕ → EventType → Option ℕ → Event
event id kind pair = record { event_id = id; kind = kind; pair_ref = pair; tool_id = none }

-- A use with two results, an orphan, and a use that was interrupted.
abbrev interrupted : List Event
interrupted =
    event 1 (another (codes "message")) none
    ∷ event 2 tool_use none
    ∷ event 3 tool_result (some 2)
    ∷ event 4 tool_result (some 2)
    ∷ event 5 tool_result (some 9)
    ∷ event 6 tool_use none
    ∷ []

each_use_has_one_result_example :
    count_results 6 (hygiene interrupted).0 + count_synthetic 6 (hygiene interrupted).1
    ≡ bit (used_in 6 interrupted)
each_use_has_one_result_example = each_use_has_one_result interrupted 6

hygiene_keeps_others_example : others (hygiene interrupted).0 ≡ others interrupted
hygiene_keeps_others_example = hygiene_keeps_others interrupted

-- The first result of the use is the one that is kept.
first_result_stays :
    (hygiene interrupted).0
    ≡ event 1 (another (codes "message")) none
      ∷ event 2 tool_use none
      ∷ event 3 tool_result (some 2)
      ∷ event 6 tool_use none
      ∷ []
unfolding hygiene tool_uses kept has_use seen_in put
first_result_stays = refl
