-- ===== src/Examples/Reads.antt =====
-- What Carol reads while the other organization is at work.
use jarvis_ai_coo.Prelude.{◌≡◌, ◌≢◌, none, [], ◌∷◌}
use jarvis_ai_coo.Requests.{create_draft, disable, serve_all}
use jarvis_ai_coo.Reading.{list, query}
use jarvis_ai_coo.Reading.Unobserved.{query-unobserved}
use jarvis_ai_coo.Examples.Data.{env, acme, globex, skill_id, alice, bob, carol, server, proposal}
use jarvis_ai_coo.Examples.Soundness.{tables-IsSound}

query-unobserved_example :
    (query carol
      (list none 50 0)
      (serve_all env ((bob, create_draft proposal) ∷ (alice, disable skill_id) ∷ []) server)).0
    ≡ (query carol (list none 50 0) server).0
query-unobserved_example =
    query-unobserved env carol ((bob, create_draft proposal) ∷ (alice, disable skill_id) ∷ [])
      server (list none 50 0) tables-IsSound (elsewhere, (elsewhere, tt))
  where
    elsewhere : acme ≢ globex
    elsewhere = λ e. cc
