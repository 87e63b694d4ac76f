-- ===== src/Workers/Shared.antt =====
-- The clients are shared out evenly.
use naruto.Prelude.{
  ℕ, zero, suc, ◌+◌, ◌%◌, ◌≤◌, ◌<◌, ◌≡◌, refl, sym, ap, ◌∙◌, inl, inr, Bool, true, false, List, [],
  ◌∷◌, ◌++◌, length, length-append, length-set, get_or, set, get_or-set_self, get_or-set_ne,
  replicate, length-replicate, All, ltb, ◌==◌, arith, Bool-cases, ==_iff, if◌then◌else◌,
}
use native.Mathlib.Nat.{zero-mod, suc-mod, mod-lt, mod-eq_of_lt, mod_self}
use naruto.Link.{ClientLink, new_link}
use naruto.Workers.{
  ConnectWorker, idle_worker, Naruto, on_accept, on_accept_rc, take_over, on_async, Event, accept,
  accept_rc, accept_failed, async, left, handle, run,
}

-- The clients of a worker, waiting or watched.
abbrev pub count : ConnectWorker → ℕ
count w = length w.conns + length w.watched

abbrev pub load : Naruto → ℕ → ℕ
load s i = count (get_or s.workers i idle_worker)

take_over_load :
    (conns : List ClientLink) (w : ConnectWorker)
    → length (take_over conns w).conns + length (take_over conns w).watched
      ≡ length conns + length w.watched
unfolding take_over
take_over_load [] w = refl
take_over_load (c ∷ cs) w =
    take_over_load cs (record w {
      conns = cs;
      watched = w.watched ++ (record c { reading = true }) ∷ [];
      conn_nums = w.conn_nums + 1;
    })
    ∙ omega (arith, length-append w.watched ((record c { reading = true }) ∷ []))

-- Each worker has `q` clients, and those before the next one have one more.
pub record IsShared (q : ℕ) (s : Naruto) : Type 0 where
  pub some_worker : 0 < length s.workers
  pub loads :
      (i : ℕ)
      → i < length s.workers
      → load s i ≡ (if ltb i (s.connect_nums % length s.workers) then q + 1 else q)

-- No event is a connection of another server, or the end of a client's link.
abbrev pub IsLocal : Event → Type 0
IsLocal (accept now) = Unit
IsLocal (accept_rc now) = ⊥
IsLocal accept_failed = Unit
IsLocal (async index) = Unit
IsLocal (left index k) = ⊥

get_or-set-load :
    (ws : List ConnectWorker) (i j : ℕ) (w : ConnectWorker)
    → i < length ws
    → get_or (set ws j w) i idle_worker ≡ (if i == j then w else get_or ws i idle_worker)
get_or-set-load ws i j w l = elim (Bool-cases (i == j)) [
  | inl e ↦
      rw (e, (==_iff i j).0 e)
        (get_or-set_self ws j w idle_worker (omega (arith, (==_iff i j).0 e)))
  | inr e ↦ rw e (get_or-set_ne ws j i w idle_worker (λ f. differ (sym f) e))
]
  where
    differ : i ≡ j → (i == j) ≡ false → ⊥
    differ e f = ground arith

-- A write to worker `j` that adds `n` clients.
set_load :
    (ws : List ConnectWorker) (i j n : ℕ) (w : ConnectWorker)
    → i < length ws
    → count w ≡ count (get_or ws j idle_worker) + n
    → count (get_or (set ws j w) i idle_worker)
      ≡ count (get_or ws i idle_worker) + (if i == j then n else 0)
set_load ws i j n w l h = ap count (get_or-set-load ws i j w l) ∙ elim (Bool-cases (i == j)) [
  | inl e ↦ rw e (h ∙ ap (λ k. count (get_or ws k idle_worker) + n) (sym ((==_iff i j).0 e)))
  | inr e ↦ rw e (omega arith)
]

load-on_accept :
    (now : ℕ) (s : Naruto) (i : ℕ)
    → i < length s.workers
    → load (on_accept now s) i
      ≡ load s i + (if i == s.connect_nums % length s.workers then 1 else 0)
unfolding on_accept
load-on_accept now s i l = set_load s.workers i (s.connect_nums % length s.workers) 1 _ l (
    omega (
      arith,
      length-append (get_or s.workers (s.connect_nums % length s.workers) idle_worker).conns
          (new_link (s.connect_nums % length s.workers) now ∷ []),
    ))

async_load :
    (index : ℕ) (s : Naruto) (i : ℕ)
    → i < length s.workers
    → load (handle (async index) s) i ≡ load s i
unfolding handle on_async
async_load index s i l =
    set_load s.workers i index 0 _ l (
      take_over_load (get_or s.workers index idle_worker).conns (get_or s.workers index idle_worker)
      ∙ omega arith)
    ∙ elim (Bool-cases (i == index)) [ inl e ↦ rw e (omega arith) | inr e ↦ rw e (omega arith) ]

-- Sharing after one more client: the next worker has `r` before it and there are `n` in all.
one_more :
    (i r n q : ℕ)
    → i < n
    → suc r < n
    → (if ltb i r then q + 1 else q) + (if i == r then 1 else 0)
      ≡ (if ltb i (suc r) then q + 1 else q)
one_more i r n q l h = ground arith

round_full :
    (i r n q : ℕ)
    → i < n
    → suc r ≡ n
    → (if ltb i r then q + 1 else q) + (if i == r then 1 else 0)
      ≡ (if ltb i 0 then q + 1 + 1 else q + 1)
round_full i r n q l h = ground arith

next_mod : (n w : ℕ) → suc (n % w) < w → (n + 1) % w ≡ suc (n % w)
next_mod n w h =
    ap (λ k. k % w) {x = n + 1} {y = suc n} (omega arith) ∙ suc-mod n w ∙ mod-eq_of_lt h

wrapped_mod : (n w : ℕ) → suc (n % w) ≡ w → (n + 1) % w ≡ 0
wrapped_mod n w h =
    ap (λ k. k % w) {x = n + 1} {y = suc n} (omega arith)
    ∙ suc-mod n w
    ∙ ap (λ k. k % w) h
    ∙ mod_self w

-- The loads after one more client, with the number of workers that there are.
after_accept :
    (now q : ℕ) (s : Naruto) (i : ℕ)
    → IsShared q s
    → i < length s.workers
    → load (on_accept now s) i
      ≡ (if ltb i (s.connect_nums % length s.workers) then q + 1 else q)
        + (if i == s.connect_nums % length s.workers then 1 else 0)
after_accept now q s i h l =
    load-on_accept now s i l
    ∙ ap (λ k. k + (if i == s.connect_nums % length s.workers then 1 else 0)) (h.loads i l)

accept_width : (now : ℕ) (s : Naruto) → length (on_accept now s).workers ≡ length s.workers
unfolding on_accept
accept_width now s = length-set s.workers (s.connect_nums % length s.workers) _

accept_index :
    (now : ℕ) (s : Naruto)
    → (on_accept now s).connect_nums % length (on_accept now s).workers
      ≡ (s.connect_nums + 1) % length s.workers
unfolding on_accept
accept_index now s = ap (λ w. (s.connect_nums + 1) % w) (accept_width now s)

accept-IsShared : (now q : ℕ) (s : Naruto) → IsShared q s → (q' : ℕ) × IsShared q' (on_accept now s)
accept-IsShared now q s h = elim (Bool-cases (suc r == length s.workers)) [
  | inl e ↦ (
    q + 1,
    record {
      some_worker = omega (arith, h.some_worker, accept_width now s);
      loads = λ i l.
          after_accept now q s i h (inside i l)
          ∙ round_full i r (length s.workers) q (inside i l) ((==_iff _ _).0 e)
          ∙ ap (λ k. if ltb i k then q + 1 + 1 else q + 1)
              (sym (index ∙ wrapped_mod s.connect_nums (length s.workers) ((==_iff _ _).0 e)));
    },
  )
  | inr e ↦ (
    q,
    record {
      some_worker = omega (arith, h.some_worker, accept_width now s);
      loads = λ i l.
          after_accept now q s i h (inside i l)
          ∙ one_more i r (length s.workers) q (inside i l) (room e)
          ∙ ap (λ k. if ltb i k then q + 1 else q)
              (sym (index ∙ next_mod s.connect_nums (length s.workers) (room e)));
    },
  )
]
  where
    r : ℕ
    r = s.connect_nums % length s.workers

    inside : (i : ℕ) → i < length (on_accept now s).workers → i < length s.workers
    inside i l = omega (arith, l, accept_width now s)

    differ : (x y : ℕ) → (x == y) ≡ false → x ≤ y → x < y
    differ x y f g = ground arith

    room : (suc r == length s.workers) ≡ false → suc r < length s.workers
    room e =
        differ (suc r) (length s.workers) e (omega (arith, mod-lt s.connect_nums h.some_worker))

    index :
        (on_accept now s).connect_nums % length (on_accept now s).workers
        ≡ (s.connect_nums + 1) % length s.workers
    index = accept_index now s

async-IsShared : (index q : ℕ) (s : Naruto) → IsShared q s → IsShared q (handle (async index) s)
unfolding handle
async-IsShared index q s h = record {
  some_worker = omega (arith, h.some_worker, width);
  loads = λ i l.
      let inside : i < length s.workers = omega (arith, l, width) in
      async_load index s i inside
      ∙ h.loads i inside
      ∙ ap (λ w. if ltb i (s.connect_nums % w) then q + 1 else q) (sym width);
}
  where
    width :
        length (set s.workers index (on_async (get_or s.workers index idle_worker)))
        ≡ length s.workers
    width = length-set s.workers index _

handle-IsShared :
    (e : Event) (q : ℕ) (s : Naruto)
    → IsLocal e
    → IsShared q s
    → (q' : ℕ) × IsShared q' (handle e s)
unfolding handle
handle-IsShared (accept now) q s k h = accept-IsShared now q s h
handle-IsShared (accept_rc now) q s k h = absurd k
handle-IsShared accept_failed q s k h = (q, h)
handle-IsShared (async index) q s k h = (q, async-IsShared index q s h)
handle-IsShared (left index n) q s k h = absurd k

run-IsShared :
    (es : List Event) (q : ℕ) (s : Naruto)
    → All IsLocal es
    → IsShared q s
    → (q' : ℕ) × IsShared q' (run es s)
unfolding run
run-IsShared [] q s k h = (q, h)
run-IsShared (e ∷ es) q s k h =
    let (q', h') = handle-IsShared e q s k.0 h in run-IsShared es q' (handle e s) k.1 h'

handle_width : (e : Event) (s : Naruto) → length (handle e s).workers ≡ length s.workers
unfolding handle on_accept_rc
handle_width (accept now) s = accept_width now s
handle_width (accept_rc now) s = refl
handle_width accept_failed s = refl
handle_width (async index) s = length-set s.workers index _
handle_width (left index k) s = length-set s.workers index _

run_width : (es : List Event) (s : Naruto) → length (run es s).workers ≡ length s.workers
unfolding run
run_width [] s = refl
run_width (e ∷ es) s = run_width es (handle e s) ∙ handle_width e s

-- A server with workers that have no clients yet.
abbrev pub started : ℕ → Naruto
started n = record { workers = replicate n idle_worker; connect_nums = 0; peers = [] }

started_load : (n i : ℕ) → count (get_or (replicate n idle_worker) i idle_worker) ≡ 0
started_load zero i = refl
started_load (suc n) zero = refl
started_load (suc n) (suc i) = started_load n i

-- Round robin: whatever clients come and whenever the workers take them over, as long as no other server connects and no client
-- leaves, no worker of a server that has started with some has more than one client more than another.
pub load-run :
    (es : List Event) (n i j : ℕ)
    → 0 < n
    → All IsLocal es
    → i < n
    → j < n
    → load (run es (started n)) i ≤ load (run es (started n)) j + 1
load-run es n i j p k a b =
    let (q, h) = run-IsShared es 0 (started n) k (record {
      some_worker = omega (arith, length-replicate n idle_worker);
      loads = λ i l. started_load n i ∙ none_before i _ (zero-mod (length (started n).workers));
    }) in
    apart _ _ q _ _ (h.loads i (omega (arith, a, width))) (h.loads j (omega (arith, b, width)))
  where
    none_before : (i k : ℕ) → k ≡ 0 → 0 ≡ (if ltb i k then 0 + 1 else 0)
    none_before i k e = ground arith

    apart :
        (x y q : ℕ) (b c : Bool)
        → x ≡ (if b then q + 1 else q)
        → y ≡ (if c then q + 1 else q)
        → x ≤ y + 1
    apart x y q b c e f = ground arith

    width : length (run es (started n)).workers ≡ n
    width = run_width es (started n) ∙ length-replicate n idle_worker
