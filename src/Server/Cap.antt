-- ===== src/Server/Cap.antt =====
-- How many clients the listeners of terminal/src/net/TcpServer.cpp let in.
use qt_s5p6818_face_tracking.Base.{
  ℕ, zero, suc, ◌+◌, ◌≤◌, ◌<◌, ◌≡◌, refl, false, List, [], ◌∷◌, ◌++◌, length, length-append, arith,
  replicate, length-replicate,
}
use qt_s5p6818_face_tracking.Core.Registry.{
  Registry, Entry, adopt, reap_finished, count, still_running, empty_registry,
}
use qt_s5p6818_face_tracking.Server.{
  Phase, waiting, admitted, client_cap, check, finish_session, World, Step, check_step, adopt_step,
  reap_step, session_step, Steps, stop, step,
}

-- The listeners that passed the check and have not adopted their client yet.
abbrev in_flight : List Phase → ℕ
in_flight [] = 0
in_flight (waiting ∷ ps) = in_flight ps
in_flight (admitted s ∷ ps) = suc (in_flight ps)

abbrev weight : Phase → ℕ
weight waiting = 0
weight (admitted s) = 1

in_flight-append :
    (ps qs : List Phase) (p : Phase)
    → in_flight (ps ++ p ∷ qs) ≡ in_flight ps + weight p + in_flight qs
in_flight-append [] qs waiting = omega arith
in_flight-append [] qs (admitted s) = omega arith
in_flight-append (waiting ∷ ps) qs p = omega (arith, in_flight-append ps qs p)
in_flight-append (admitted s ∷ ps) qs p = omega (arith, in_flight-append ps qs p)

in_flight_bound : (ps : List Phase) → in_flight ps ≤ length ps
in_flight_bound [] = omega arith
in_flight_bound (waiting ∷ ps) = omega (arith, in_flight_bound ps)
in_flight_bound (admitted s ∷ ps) = omega (arith, in_flight_bound ps)

length-still_running : (es : List Entry) → length (still_running es) ≤ length es
unfolding still_running
length-still_running [] = omega arith
length-still_running (e ∷ es) = ground (arith, length-still_running es)

length-finish_session :
    (session : ℕ) (es : List Entry) → length (finish_session session es) ≡ length es
unfolding finish_session
length-finish_session session [] = refl
length-finish_session session (e ∷ es) = ground (arith, length-finish_session session es)

-- The cap holds but for the clients in flight on the other listeners, and the counter is right.
record IsWithin (max_clients n : ℕ) (w : World) : Type 0 where
  listening : length w.listeners ≡ n
  room : suc (length w.registry.entries + in_flight w.listeners) ≤ client_cap max_clients + n
  counted : w.registry.client_count ≡ length w.registry.entries

check-weight :
    (max_clients session : ℕ) (r : Registry) (k n : ℕ)
    → suc (length r.entries + k) ≤ client_cap max_clients + n
    → suc k ≤ n
    → suc (length r.entries + (k + weight (check max_clients r session)))
      ≤ client_cap max_clients + n
unfolding check count
check-weight max_clients session r k n h l = ground (arith)

keeps :
    {max_clients n : ℕ} {v w : World}
    → Step max_clients v w
    → IsWithin max_clients n v
    → IsWithin max_clients n w
unfolding adopt reap_finished
keeps {max_clients} {n} (check_step r before after session) i = record {
  listening = omega (
    arith,
    i.listening,
    length-append before (waiting ∷ after),
    length-append before (check max_clients r session ∷ after),
  );
  room = omega (
    arith,
    i.room,
    i.listening,
    in_flight-append before after waiting,
    length-append before (waiting ∷ after),
    in_flight-append before after (check max_clients r session),
    in_flight_bound before,
    in_flight_bound after,
    check-weight max_clients session r (in_flight before + in_flight after) n,
  );
  counted = i.counted;
}
keeps {max_clients} {n} (adopt_step r before after session) i = record {
  listening = omega (
    arith,
    i.listening,
    length-append before (waiting ∷ after),
    length-append before (admitted session ∷ after),
  );
  room = omega (
    arith,
    i.room,
    in_flight-append before after waiting,
    in_flight-append before after (admitted session),
    length-append r.entries (record { session = session; finished = false; stopping = false } ∷ []),
  );
  counted = refl;
}
keeps {max_clients} {n} (reap_step r ps) i = record {
  listening = i.listening;
  room = omega (arith, i.room, length-still_running r.entries);
  counted = refl;
}
keeps {max_clients} {n} (session_step r ps session) i = record {
  listening = i.listening;
  room = omega (arith, i.room, length-finish_session session r.entries);
  counted = omega (arith, i.counted, length-finish_session session r.entries);
}

abbrev pub idle : ℕ → World
idle n = record { registry = empty_registry; listeners = replicate n waiting }

in_flight-idle : (n : ℕ) → in_flight (replicate n waiting) ≡ 0
in_flight-idle zero = refl
in_flight-idle (suc n) = in_flight-idle n

client_cap-positive : (max_clients : ℕ) → 0 < client_cap max_clients
unfolding client_cap
client_cap-positive zero = omega arith
client_cap-positive (suc n) = omega arith

Steps-IsWithin :
    {max_clients n : ℕ} {u w : World}
    → Steps max_clients u w
    → IsWithin max_clients n u
    → IsWithin max_clients n w
Steps-IsWithin (stop w) i = i
Steps-IsWithin (step s t) i = keeps t (Steps-IsWithin s i)

idle-IsWithin : (max_clients n : ℕ) → IsWithin max_clients n (idle n)
idle-IsWithin max_clients n = record {
  listening = length-replicate n waiting;
  room = omega (arith, in_flight-idle n, client_cap-positive max_clients);
  counted = refl;
}

-- In every interleaving of accepts, reaps and ends of sessions by `n` listeners on one registry,
-- there are fewer clients than the cap plus `n`, and the shown count is their number.
pub clients_capped :
    (max_clients n : ℕ) (w : World)
    → Steps max_clients (idle n) w
    → (count w.registry < client_cap max_clients + n) × (w.registry.client_count ≡ count w.registry)
unfolding count
clients_capped max_clients n w s =
    let i = Steps-IsWithin s (idle-IsWithin max_clients n) in (omega (arith, i.room), i.counted)
