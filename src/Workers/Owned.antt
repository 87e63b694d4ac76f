-- ===== src/Workers/Owned.antt =====
-- Each client has the number of its worker.
use naruto.Prelude.{
  ℕ, zero, suc, ◌%◌, ◌≡◌, refl, sym, subst, ap, true, List, [], ◌∷◌, length, get_or, set, All,
  All-append, All-take, All-drop, take, ◌+◌,
}
use naruto.Link.{ClientLink, new_link}
use naruto.Workers.{
  ConnectWorker, idle_worker, Naruto, on_accept, on_accept_rc, take_over, on_async, Event, accept,
  accept_rc, accept_failed, async, left, leave, handle, run,
}

abbrev pub IsMine : ℕ → ClientLink → Type 0
IsMine i l = l.worker_id ≡ i

take_over-All :
    (i : ℕ) (conns : List ClientLink) (w : ConnectWorker)
    → All (IsMine i) conns
    → All (IsMine i) w.watched
    → All (IsMine i) (take_over conns w).conns × All (IsMine i) (take_over conns w).watched
unfolding take_over
take_over-All i [] w h k = (tt, k)
take_over-All i (c ∷ cs) w h k =
    take_over-All i cs _ h.1
      (All-append (IsMine i) w.watched ((record c { reading = true }) ∷ []) k (h.0, tt))

-- What holds of a worker after a write to one.
get_or-set-Cases :
    (P : ConnectWorker → Type 0) (ws : List ConnectWorker) (i j : ℕ) (w : ConnectWorker)
    → (i ≡ j → P w)
    → P (get_or ws i idle_worker)
    → P (get_or (set ws j w) i idle_worker)
get_or-set-Cases P [] i j w h k = k
get_or-set-Cases P (x ∷ ws) zero zero w h k = h refl
get_or-set-Cases P (x ∷ ws) zero (suc j) w h k = k
get_or-set-Cases P (x ∷ ws) (suc i) zero w h k = k
get_or-set-Cases P (x ∷ ws) (suc i) (suc j) w h k =
    get_or-set-Cases P ws i j w (λ e. h (ap suc e)) k

-- The clients of a worker that waits for them or watches them.
abbrev pub AllMine : ℕ → ConnectWorker → Type 0
AllMine i w = All (IsMine i) w.conns × All (IsMine i) w.watched

handle-AllMine :
    (e : Event) (s : Naruto)
    → ((i : ℕ) → AllMine i (get_or s.workers i idle_worker))
    → (i : ℕ) → AllMine i (get_or (handle e s).workers i idle_worker)
unfolding handle on_accept on_accept_rc on_async leave new_link
handle-AllMine (accept now) s h i =
    get_or-set-Cases (AllMine i) s.workers i (s.connect_nums % length s.workers) _
      (λ e. (
        All-append (IsMine i) _ _
            (subst (λ k. AllMine i (get_or s.workers k idle_worker)) e (h i)).0 (sym e, tt),
        (subst (λ k. AllMine i (get_or s.workers k idle_worker)) e (h i)).1,
      ))
      (h i)
handle-AllMine (accept_rc now) s h i = h i
handle-AllMine accept_failed s h i = h i
handle-AllMine (async index) s h i =
    get_or-set-Cases (AllMine i) s.workers i index _
      (λ e.
        let k : AllMine i (get_or s.workers index idle_worker) =
          subst (λ k. AllMine i (get_or s.workers k idle_worker)) e (h i) in
        take_over-All i _ _ k.0 k.1)
      (h i)
handle-AllMine (left index k) s h i =
    get_or-set-Cases (AllMine i) s.workers i index _
      (λ e.
        let m : AllMine i (get_or s.workers index idle_worker) =
          subst (λ k. AllMine i (get_or s.workers k idle_worker)) e (h i) in
        (
          m.0,
          All-append (IsMine i) (take k (get_or s.workers index idle_worker).watched) _
              (All-take (IsMine i) k _ m.1) (All-drop (IsMine i) (k + 1) _ m.1),
        ))
      (h i)

-- Whatever comes, a client belongs to the worker whose number it has: it stays with the worker that it was given to, waiting
-- or watched, and so writes into the buffers of this worker alone.
pub run-AllMine :
    (es : List Event) (s : Naruto)
    → ((i : ℕ) → AllMine i (get_or s.workers i idle_worker))
    → (i : ℕ) → AllMine i (get_or (run es s).workers i idle_worker)
unfolding run
run-AllMine [] s h = h
run-AllMine (e ∷ es) s h = run-AllMine es (handle e s) (handle-AllMine e s h)
