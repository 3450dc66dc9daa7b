-- ===== src/Provider/Examples.antt =====
-- Examples of the theorems on the providers, at concrete inputs.
use nexus_agent_demo.Prelude.{◌≡◌, refl, true, List, [], ◌∷◌}
use nexus_agent_demo.Prelude.Text.{codes}
use nexus_agent_demo.Provider.Failover.{
  Provider, refuses, opens, throttle_error, chunk, Next, PeekedStream, committed, attempt,
}
use nexus_agent_demo.Provider.Failover.Commit.{read, read_inner, peeked_stream_is_whole}

abbrev throttled : Provider
throttled prompt = refuses (throttle_error (codes "busy"))

abbrev two_chunks : List Next
two_chunks = chunk (codes "a") true ∷ chunk (codes "b") true ∷ []

abbrev answering : Provider
answering prompt = opens two_chunks

abbrev peeked_chunks : PeekedStream
peeked_chunks = record {
  first = codes "a";
  first_ok = true;
  has_first = true;
  inner = chunk (codes "b") true ∷ [];
}

answering_commits : attempt answering (codes "p") ≡ committed peeked_chunks
unfolding attempt
answering_commits = refl

peeked_stream_is_whole_example : read 3 peeked_chunks ≡ read_inner 3 two_chunks
peeked_stream_is_whole_example =
    peeked_stream_is_whole answering (codes "p") two_chunks peeked_chunks 3 refl answering_commits
