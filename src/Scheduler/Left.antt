-- ===== src/Scheduler/Left.antt =====
-- scheduler.cpp, `stop`: which fibers are resumed, and how often.
use fiber_lib.Prelude.{
  ℕ, zero, suc, ◌+◌, ◌≤◌, ◌<◌, ◌≡◌, ◌≢◌, refl, ap, ap₂, sym, ◌∙◌, true, false, Option, none, some,
  List, [], ◌∷◌, ◌++◌, append-nil, append_assoc, if◌then◌else◌, leb, update, length, map, if_true,
  if_false, Bool-cases, inl, inr, subst, arith,
}
use fiber_lib.Fiber.{running, is_done}
use fiber_lib.Scheduler.{
  Consumer, Pool, Checked, fine, across_thread, done_again, then_do, created, schedule_immediate,
  go,
}
use fiber_lib.Scheduler.Affinity.{step, run}
use fiber_lib.Scheduler.Batch.{Act, launch, wake, act_event, Slice, first_slice}
use fiber_lib.Scheduler.Stop.{
  Stopping, ran_to, resume_left, popped, next_left, while_left, drain, turned_off, stop_consumer,
  then_next, stop_from, cleared, stop,
}

-- A call on a stopped scheduler schedules nothing.
record Quiet (p p' : Pool) : Type 0 where
  still_off : p'.on ≡ false
  queues : p'.consumers ≡ p.consumers
  counted : p'.count ≡ p.count

abbrev IsQuiet : Pool → Checked Pool → Type 0
IsQuiet p (fine p') = Quiet p p'
IsQuiet p across_thread = ⊥
IsQuiet p done_again = ⊥

IsQuiet-trans : (p p' : Pool) (c : Checked Pool) → Quiet p p' → IsQuiet p' c → IsQuiet p c
IsQuiet-trans p p' (fine p'') q r = record {
  still_off = r.still_off;
  queues = r.queues ∙ q.queues;
  counted = r.counted ∙ q.counted;
}
IsQuiet-trans p p' across_thread q r = r
IsQuiet-trans p p' done_again q r = r

schedule_immediate-IsQuiet : (f : ℕ) (p : Pool) → p.on ≡ false → IsQuiet p (schedule_immediate f p)
unfolding schedule_immediate
schedule_immediate-IsQuiet f p off =
    subst (IsQuiet p) (sym (if_false _ _ off))
      (record { still_off = off; queues = refl; counted = refl })

step-IsQuiet : (a : Act) (p : Pool) → p.on ≡ false → IsQuiet p (step (act_event a) p)
unfolding step go
step-IsQuiet (launch feature) p off =
    IsQuiet-trans p (created (p.last_id + 1) feature p) _
      (record { still_off = off; queues = refl; counted = refl })
      (schedule_immediate-IsQuiet (p.last_id + 1) (created (p.last_id + 1) feature p) off)
step-IsQuiet (wake f) p off = elim (Bool-cases (leb f p.last_id)) [
  | inl e ↦ subst (IsQuiet p) (sym (if_true _ _ e)) (schedule_immediate-IsQuiet f p off)
  | inr e ↦
      subst (IsQuiet p) (sym (if_false _ _ e))
        (record { still_off = off; queues = refl; counted = refl })
]

run_on-IsQuiet :
    (xs : List Act) (p : Pool) (c : Checked Pool)
    → ((p' : Pool) → p'.on ≡ false → IsQuiet p' (run (map act_event xs) (fine p')))
    → IsQuiet p c
    → IsQuiet p (run (map act_event xs) c)
run_on-IsQuiet xs p (fine p') next q = IsQuiet-trans p p' _ q (next p' q.still_off)
run_on-IsQuiet xs p across_thread next q = absurd q
run_on-IsQuiet xs p done_again next q = absurd q

run-IsQuiet :
    (xs : List Act) (p : Pool) → p.on ≡ false → IsQuiet p (run (map act_event xs) (fine p))
unfolding run
run-IsQuiet [] p off = record { still_off = off; queues = refl; counted = refl }
run-IsQuiet (a ∷ xs) p off =
    run_on-IsQuiet xs p (step (act_event a) p) (run-IsQuiet xs) (step-IsQuiet a p off)

-- A run on the stopping thread.
record Resumed (f : ℕ) (t t' : Stopping) : Type 0 where
  off : t'.pool.on ≡ false
  queues : t'.pool.consumers ≡ t.pool.consumers
  counted : t'.pool.count ≡ t.pool.count
  logged : t'.resumed ≡ t.resumed ++ f ∷ []

abbrev Ends : (Stopping → Type 0) → Checked Stopping → Type 0
Ends P (fine t) = P t
Ends P across_thread = ⊥
Ends P done_again = ⊥

ran-Resumed :
    (f : ℕ) (x : Slice) (t : Stopping) (p : Pool) (c : Checked Pool)
    → p.consumers ≡ t.pool.consumers
    → p.count ≡ t.pool.count
    → IsQuiet p c
    → Ends (Resumed f t) (then_do c λ p'. fine (ran_to f x t p'))
ran-Resumed f x t p (fine p') e n q = record {
  off = q.still_off;
  queues = q.queues ∙ e;
  counted = q.counted ∙ n;
  logged = refl;
}
ran-Resumed f x t p across_thread e n q = q
ran-Resumed f x t p done_again e n q = q

resume_left-Resumed :
    (f : ℕ) (t : Stopping) → t.pool.on ≡ false → Ends (Resumed f t) (resume_left f t)
unfolding resume_left
resume_left-Resumed f t off = elim (Bool-cases (is_done (t.pool.state f))) [
  | inl e ↦
      subst (Ends (Resumed f t)) (sym (if_true _ _ e))
        (record { off = off; queues = refl; counted = refl; logged = refl })
  | inr e ↦ subst (Ends (Resumed f t)) (sym (if_false _ _ e)) (
      ran-Resumed f (first_slice (t.scripts f)) t
        (record t.pool { state = update t.pool.state f running }) _ refl refl
        (run-IsQuiet (first_slice (t.scripts f)).acts
          (record t.pool { state = update t.pool.state f running }) off))
]

abbrev EndsIn : (Stopping → Type 0) → Option (Checked Stopping) → Type 0
EndsIn P none = ⊥
EndsIn P (some c) = Ends P c

-- Consumer `i` has resumed `q` and has an empty queue.
record Emptied (i : ℕ) (q : List ℕ) (t t' : Stopping) : Type 0 where
  off : t'.pool.on ≡ false
  empty : (t'.pool.consumers i).queue ≡ []
  others : (j : ℕ) → i ≢ j → t'.pool.consumers j ≡ t.pool.consumers j
  counted : t'.pool.count ≡ t.pool.count
  logged : t'.resumed ≡ t.resumed ++ q

EndsIn-Emptied :
    (i f : ℕ) (q : List ℕ) (t t' : Stopping) (o : Option (Checked Stopping))
    → Resumed f (popped i q t) t'
    → EndsIn (Emptied i q t') o
    → EndsIn (Emptied i (f ∷ q) t) o
EndsIn-Emptied i f q t t' none r h = h
EndsIn-Emptied i f q t t' (some (fine t'')) r h = record {
  off = h.off;
  empty = h.empty;
  others = λ j n. ground (arith, h.others j n, ap (λ c. c j) r.queues, n);
  counted = h.counted ∙ r.counted;
  logged = h.logged ∙ ap (λ l. l ++ q) r.logged ∙ append_assoc t.resumed (f ∷ []) q;
}
EndsIn-Emptied i f q t t' (some across_thread) r h = h
EndsIn-Emptied i f q t t' (some done_again) r h = h

next_left-Emptied :
    (next : Stopping → Option (Checked Stopping)) (i f : ℕ) (q : List ℕ) (t : Stopping)
    (c : Checked Stopping)
    → ((t' : Stopping)
        → t'.pool.on ≡ false
        → (t'.pool.consumers i).queue ≡ q
        → EndsIn (Emptied i q t') (next t'))
    → Ends (Resumed f (popped i q t)) c
    → EndsIn (Emptied i (f ∷ q) t) (next_left next c)
next_left-Emptied next i f q t (fine t') rest r =
    EndsIn-Emptied i f q t t' (next t') r (rest t' r.off (ground (arith, ap (λ c. c i) r.queues)))
next_left-Emptied next i f q t across_thread rest r = r
next_left-Emptied next i f q t done_again rest r = r

drain-Emptied :
    (q : List ℕ) (fuel i : ℕ) (t : Stopping)
    → t.pool.on ≡ false
    → (t.pool.consumers i).queue ≡ q
    → length q < fuel
    → EndsIn (Emptied i q t) (drain fuel i t)
unfolding drain
drain-Emptied q zero i t off e b = absurd (omega arith)
drain-Emptied [] (suc n) i t off e b =
    subst (λ q. EndsIn (Emptied i [] t) (while_left (λ t'. drain n i t') i q t)) (sym e)
      (record {
        off = off;
        empty = e;
        others = λ j m. refl;
        counted = refl;
        logged = sym (append-nil t.resumed);
      })
drain-Emptied (f ∷ q) (suc n) i t off e b =
    subst (λ q'. EndsIn (Emptied i (f ∷ q) t) (while_left (λ t'. drain n i t') i q' t)) (sym e)
      (next_left-Emptied (λ t'. drain n i t') i f q t _
        (λ t' off' e'. drain-Emptied q n i t' off' e' (omega arith))
        (resume_left-Resumed f (popped i q t) off))

-- The fibers that `FiberConsumer::stop` finds, and those of `n` consumers from `i` on.
abbrev pub queue_left : Consumer → List ℕ
queue_left c = if c.on then c.queue else []

abbrev pub left : ℕ → ℕ → (ℕ → Consumer) → List ℕ
left zero i cs = []
left (suc n) i cs = queue_left (cs i) ++ left n (i + 1) cs

-- The other consumers are what they were.
record Past (i : ℕ) (q : List ℕ) (t t' : Stopping) : Type 0 where
  off : t'.pool.on ≡ false
  others : (j : ℕ) → i ≢ j → t'.pool.consumers j ≡ t.pool.consumers j
  counted : t'.pool.count ≡ t.pool.count
  logged : t'.resumed ≡ t.resumed ++ q

ends_as :
    (P Q : Stopping → Type 0) (o : Option (Checked Stopping))
    → ((t : Stopping) → P t → Q t)
    → EndsIn P o
    → EndsIn Q o
ends_as P Q none f h = h
ends_as P Q (some (fine t)) f h = f t h
ends_as P Q (some across_thread) f h = h
ends_as P Q (some done_again) f h = h

stop_consumer-Past :
    (fuel i : ℕ) (t : Stopping)
    → t.pool.on ≡ false
    → length (t.pool.consumers i).queue < fuel
    → EndsIn (Past i (queue_left (t.pool.consumers i)) t) (stop_consumer fuel none i t)
unfolding stop_consumer
stop_consumer-Past fuel i t off b = elim (Bool-cases (t.pool.consumers i).on) [
  | inl e ↦ subst (EndsIn (Past i (queue_left (t.pool.consumers i)) t)) (sym (if_true _ _ e)) (
      ends_as (Emptied i (t.pool.consumers i).queue (turned_off i t)) _ _
        (λ t' h. record {
          off = h.off;
          others = λ j n. ground (arith, h.others j n, n);
          counted = h.counted;
          logged = h.logged ∙ ap (λ q. t.resumed ++ q) (sym (if_true _ _ e));
        })
        (drain-Emptied (t.pool.consumers i).queue fuel i (turned_off i t) off (ground arith) b))
  | inr e ↦
      subst (EndsIn (Past i (queue_left (t.pool.consumers i)) t)) (sym (if_false _ _ e)) (record {
        off = off;
        others = λ j n. refl;
        counted = refl;
        logged = sym (append-nil t.resumed) ∙ ap (λ q. t.resumed ++ q) (sym (if_false _ _ e));
      })
]

left_same :
    (n i : ℕ) (cs ds : ℕ → Consumer) → ((j : ℕ) → i ≤ j → cs j ≡ ds j) → left n i cs ≡ left n i ds
left_same zero i cs ds h = refl
left_same (suc n) i cs ds h =
    ap₂ (λ a b. a ++ b) (ap queue_left (h i (omega arith)))
      (left_same n (i + 1) cs ds (λ j l. h j (omega arith)))

record AllPast (q : List ℕ) (t t' : Stopping) : Type 0 where
  off : t'.pool.on ≡ false
  counted : t'.pool.count ≡ t.pool.count
  logged : t'.resumed ≡ t.resumed ++ q

then_next-AllPast :
    (next : Stopping → Option (Checked Stopping)) (q r : List ℕ) (t : Stopping)
    (P : Stopping → Type 0) (o : Option (Checked Stopping))
    → ((t' : Stopping) → P t' → AllPast q t t')
    → ((t' : Stopping) → P t' → EndsIn (AllPast r t') (next t'))
    → EndsIn P o
    → EndsIn (AllPast (q ++ r) t) (then_next next o)
then_next-AllPast next q r t P none f g h = h
then_next-AllPast next q r t P (some (fine t')) f g h =
    ends_as (AllPast r t') _ (next t')
      (λ t'' k. record {
        off = k.off;
        counted = k.counted ∙ (f t' h).counted;
        logged = k.logged ∙ ap (λ l. l ++ r) (f t' h).logged ∙ append_assoc t.resumed q r;
      })
      (g t' h)
then_next-AllPast next q r t P (some across_thread) f g h = h
then_next-AllPast next q r t P (some done_again) f g h = h

stop_from-AllPast :
    (fuel n i : ℕ) (t : Stopping)
    → t.pool.on ≡ false
    → ((j : ℕ) → i ≤ j → length (t.pool.consumers j).queue < fuel)
    → EndsIn (AllPast (left n i t.pool.consumers) t) (stop_from fuel none n i t)
unfolding stop_from
stop_from-AllPast fuel zero i t off b = record {
  off = off;
  counted = refl;
  logged = sym (append-nil t.resumed);
}
stop_from-AllPast fuel (suc n) i t off b =
    then_next-AllPast (λ t'. stop_from fuel none n (i + 1) t') (queue_left (t.pool.consumers i))
      (left n (i + 1) t.pool.consumers) t (Past i (queue_left (t.pool.consumers i)) t)
      (stop_consumer fuel none i t)
      (λ t' h. record { off = h.off; counted = h.counted; logged = h.logged })
      (λ t' h.
        subst (λ l. EndsIn (AllPast l t') (stop_from fuel none n (i + 1) t'))
          (left_same n (i + 1) t'.pool.consumers t.pool.consumers (λ j l. h.others j (omega arith)))
          (stop_from-AllPast fuel n (i + 1) t' h.off
            (λ j l. ground (arith, h.others j (omega arith), b j (omega arith)))))
      (stop_consumer-Past fuel i t off (b i (omega arith)))

-- The scheduler after `stop`, with the fibers that were resumed.
pub record Stopped (t t' : Stopping) : Type 0 where
  pub off : t'.pool.on ≡ false
  pub no_consumers : t'.pool.count ≡ 0
  pub resumed_once : t'.resumed ≡ t.resumed ++ left t.pool.count 0 t.pool.consumers

-- The loop has ended, with no assertion failed.
abbrev pub EndsStopped : Stopping → Option (Checked Stopping) → Type 0
EndsStopped t none = ⊥
EndsStopped t (some (fine t')) = Stopped t t'
EndsStopped t (some across_thread) = ⊥
EndsStopped t (some done_again) = ⊥

cleared-Stopped :
    (t t1 : Stopping) (o : Option (Checked Stopping))
    → t1.resumed ≡ t.resumed
    → EndsIn (AllPast (left t.pool.count 0 t.pool.consumers) t1) o
    → EndsStopped t (then_next cleared o)
cleared-Stopped t t1 none e h = h
cleared-Stopped t t1 (some (fine t')) e h = record {
  off = h.off;
  no_consumers = refl;
  resumed_once = h.logged ∙ ap (λ l. l ++ left t.pool.count 0 t.pool.consumers) e;
}
cleared-Stopped t t1 (some across_thread) e h = h
cleared-Stopped t t1 (some done_again) e h = h

-- `stop` of a running scheduler, by a thread that is not a consumer's, while the other threads do
-- nothing, ends, with fuel above the length of every queue: it resumes each fiber of the queues of the
-- running consumers once, consumer by consumer and in the order of the queue, whatever these fibers do,
-- schedules none again, and leaves no consumer.
pub stop-Stopped :
    (fuel : ℕ) (t : Stopping)
    → t.pool.on ≡ true
    → ((j : ℕ) → length (t.pool.consumers j).queue < fuel)
    → EndsStopped t (stop fuel none t)
unfolding stop
stop-Stopped fuel t on b =
    let t1 : Stopping = record t { pool = record t.pool { on = false } } in
    subst (EndsStopped t) (sym (if_true _ _ on)) (
      cleared-Stopped t t1 (stop_from fuel none t.pool.count 0 t1) refl
        (stop_from-AllPast fuel t.pool.count 0 t1 refl (λ j l. b j)))
