-- ===== src/Tests/Service.antt =====
-- Concrete runs of the frame queue, the sleep handshake, the logs and the files.
use sys_grid.Base.{
  ℕ, ◌≡◌, ◌≢◌, refl, arith, Bool, true, false, [], ◌∷◌, ◌++◌, Option, none, some, ◌==◌, ◌&&◌, ◌↔◌,
  subst, if◌then◌else◌, drop,
}
use sys_grid.Net.{Bytes}
use sys_grid.Vnet.{Frame}
use sys_grid.Config.{Text}
use sys_grid.Port.Queue.{Queue, Holds}
use sys_grid.Port.Queue.Order.{emit, take_one, drain_all, run, run-run_list}
use sys_grid.Port.Gate
use sys_grid.Port.Gate.{
  Gate, Reach, here, next, initial, answered, cleared_quiesced, waiting, running, closed,
}
use sys_grid.Port.Gate.Parked.{start, later, Reach-answered, second_request-unanswered}
use sys_grid.Log.{event_text}
use sys_grid.Log.Ring
use sys_grid.Log.Ring.{entries, unlines, event_text-run}
use sys_grid.Files.{
  FileSystem, peer, state_path, print_llx, write_whole_file, cb_state_get, cb_state_put, state_root,
  peers_dir, peer_ending,
}
use sys_grid.Files.Store.{IsLawful, cb_state_get-put}
use sys_grid.Tests.{hello}

-- ---- the queue ----

abbrev frame : Frame
frame = record { dst_mac = 1; ether_type = 2048; payload = hello }

abbrev empty_queue : Queue
empty_queue = record { frames = λ i. frame; head = 31; tail = 31 }

empty_queue-Holds : Holds empty_queue []
empty_queue-Holds = record {
  tail_range = omega arith;
  few = omega arith;
  head_lem = omega arith;
  content = refl;
}

run-run_list_example :
    Holds (run empty_queue (emit frame ∷ emit frame ∷ take_one ∷ drain_all true false ∷ [])).0 []
    × ((run empty_queue (emit frame ∷ emit frame ∷ take_one ∷ drain_all true false ∷ [])).1
        ≡ frame ∷ frame ∷ [])
run-run_list_example =
    run-run_list empty_queue [] (emit frame ∷ emit frame ∷ take_one ∷ drain_all true false ∷ [])
      empty_queue-Holds

-- ---- the handshake ----

-- A request, and the node thread's answer to it.
abbrev parked : Gate
parked = record {
  quiesced = true;
  resumed = false;
  requested = true;
  wire = false;
  mapped = false;
  psc = answered;
  node = waiting;
  node_at_request = running;
}

parked_reached : Reach (initial true) parked
parked_reached =
    let r1 = next here (Gate.clear_quiesced (initial true) refl) in
    let r2 = next r1 (Gate.clear_resumed _ refl) in
    let r3 = next r2 (Gate.set_requested _ refl) in
    let r4 = next r3 (Gate.enter_sleep _ refl refl) in
    let r5 = next r4 (Gate.close_sockets _ refl) in
    let r6 = next r5 (Gate.signal_quiesced _ refl) in next r6 (Gate.see_quiesced _ refl refl)

Reach-answered_example : (parked.node ≡ waiting) × (parked.wire ≡ false) × (parked.mapped ≡ false)
Reach-answered_example = Reach-answered true parked parked_reached refl refl

second_request-unanswered_example : (Gate.cleared_resumed ≢ answered) × (waiting ≡ waiting)
second_request-unanswered_example =
    second_request-unanswered true parked _ parked_reached refl refl
      (later start (Gate.clear_resumed _ refl) (λ e. cc e))

-- ---- the logs ----

abbrev no_lines : ℕ → Text
no_lines i = []

event_text-run_example :
    event_text
      (Ring.run (record { line = no_lines; count = 0 }) ((91 ∷ [], 65 ∷ []) ∷ ([], 66 ∷ []) ∷ []))
    ≡ unlines (drop 0 ((91 ∷ 65 ∷ []) ∷ (66 ∷ []) ∷ []))
event_text-run_example = event_text-run no_lines ((91 ∷ [], 65 ∷ []) ∷ ([], 66 ∷ []) ∷ [])

-- ---- the files ----

-- One path at a time: a file system that keeps a function of the path.
abbrev same_path : Text → Text → Bool
same_path [] [] = true
same_path [] (d ∷ u) = false
same_path (c ∷ t) [] = false
same_path (c ∷ t) (d ∷ u) = c == d && same_path t u

same_path_iff : (t u : Text) → (same_path t u ≡ true) ↔ (t ≡ u)
same_path_iff t u = (forth t u, back t u)
  where
    forth : (t u : Text) → same_path t u ≡ true → t ≡ u
    forth [] [] h = refl
    forth [] (d ∷ u) h = cc
    forth (c ∷ t) [] h = cc
    forth (c ∷ t) (d ∷ u) h = ground (arith, forth t u)

    self : (t : Text) → same_path t t ≡ true
    self [] = refl
    self (c ∷ t) = ground (arith, self t)

    back : (t u : Text) → t ≡ u → same_path t u ≡ true
    back t u e = subst (λ (v : Text). same_path t v ≡ true) e (self t)

abbrev put_at : (Text → Option Bytes) → Text → Option Bytes → Text → Option Bytes
put_at f p o q = if same_path p q then o else f q

abbrev disk : FileSystem
disk = record {
  State = Text → Option Bytes;
  delete = λ s p. put_at s p none;
  create = λ s p n. (put_at s p (some []), true);
  write = λ s p b. (put_at s p (some b), true);
  read = λ s p. s p;
}

put_at_self : (f : Text → Option Bytes) (p : Text) (o : Option Bytes) → put_at f p o p ≡ o
put_at_self f p o = ground (arith, same_path_iff p p)

put_at-other :
    (f : Text → Option Bytes) (p : Text) (o : Option Bytes) (q : Text)
    → q ≢ p
    → put_at f p o q ≡ f q
put_at-other f p o q other = ground (arith, same_path_iff p q)

disk-IsLawful : IsLawful disk
disk-IsLawful = record {
  delete_self = λ s p. put_at_self s p none;
  delete_other = λ s p q other. put_at-other s p none q other;
  create_other = λ s p n q other. put_at-other s p (some []) q other;
  write_other = λ s p b q other. put_at-other s p (some b) q other;
  write_self = λ s p b made written. put_at_self (put_at s p (some [])) p (some b);
}

abbrev no_files : Text → Option Bytes
no_files p = none

abbrev peer_path : Text
peer_path = state_root ++ (peers_dir ++ (print_llx 10 7 ++ peer_ending))

cb_state_get-put_example :
    cb_state_get disk (cb_state_put disk no_files peer 7 (some hello)) peer 7 2048 ≡ some hello
unfolding state_path write_whole_file
cb_state_get-put_example =
    cb_state_get-put disk disk-IsLawful no_files peer 7 peer_path hello peer 7 2048 (omega arith)
      (omega arith) refl refl
