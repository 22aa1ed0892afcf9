-- ===== src/Tests/Purging.antt =====
-- Channel operations on channels of two types.
use dingo_hunter.Prelude.{ℕ, zero, suc, ◌≡◌, refl, Option, some, List, [], ◌∷◌}
use dingo_hunter.Fairness.{chan_send, chan_recv, chan_close}
use dingo_hunter.ChanOps.{ChanOp, purge_chan_ops}
use dingo_hunter.ChanOps.Purge.{Matching, purge_chan_ops-Matching}

-- The channels 0 and 2 have one type, 1 has another.
abbrev elem_type : ℕ → Option ℕ
elem_type zero = some 7
elem_type (suc zero) = some 8
elem_type (suc (suc n)) = some 7

abbrev ops : List ChanOp
ops =
    record { value = 1; typ = chan_send; pos = 3 }
    ∷ record { value = 2; typ = chan_recv; pos = 4 }
    ∷ record { value = 0; typ = chan_close; pos = 5 }
    ∷ []

purge_chan_ops-Matching_example :
    (ops' : List ChanOp) × (purge_chan_ops elem_type ops 0 ≡ some ops')
    × Matching elem_type 0 7 ops ops'
purge_chan_ops-Matching_example =
    purge_chan_ops-Matching elem_type 0 7 ops refl ((8, refl), ((7, refl), ((7, refl), tt)))
