-- ===== src/Tests/Requests.antt =====
-- A run of calls and questions on the map of ConfigManager.
use vtb.Prelude.{◌≡◌, refl, true, false, none, List, [], ◌∷◌, pos, negsuc, ok, arith}
use vtb.PortMap.{PMap}
use vtb.PortMap.Runs.{init, queue, data_socket, clear}
use vtb.PortMap.Spec.{Request, call, ready, ids, done, is_ready, qids, serve, state_after, replies}
use vtb.PortMap.Represents.{Implements}
use vtb.PortMap.Refinement.{serve-replies, nil-Implements}

-- A device of two pairs, of which the second is enabled, asked about and taken away.
abbrev session : List Request
session =
    call (init (pos 4) (pos 10) 2)
    ∷ call (queue (pos 4) 2 true)
    ∷ ready (pos 4) (pos 1)
    ∷ call (queue (pos 4) 3 true)
    ∷ ready (pos 4) (pos 1)
    ∷ call (data_socket (pos 4) (pos 1) (pos 33))
    ∷ ids (pos 4) (pos 1)
    ∷ ids (pos 4) (pos 2)
    ∷ call (clear (pos 4))
    ∷ ready (pos 4) (negsuc 0)
    ∷ []

session_answers :
    replies session (λ p. none)
    ≡ done
      ∷ done
      ∷ is_ready false
      ∷ done
      ∷ is_ready true
      ∷ done
      ∷ qids (pos 10, 2, 3)
      ∷ qids (negsuc 0, 0, 0)
      ∷ done
      ∷ is_ready false
      ∷ []
session_answers = refl

serve-replies_example :
    (after : PMap) × (serve session [] ≡ ok (replies session (λ p. none), after))
    × Implements after (state_after session (λ p. none))
serve-replies_example =
    serve-replies session [] (λ p. none) nil-Implements
      (omega arith, (tt, (omega arith, (tt, (omega arith, (tt, (tt, (tt, (tt, (tt, tt))))))))))
