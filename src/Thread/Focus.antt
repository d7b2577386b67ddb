-- ===== src/Thread/Focus.antt =====
-- source/thread.c: which thread is the focused one. A thread of the list is meant by its index, as
-- the source means it by its pointer.
use iosdbg.Base.{
  ℕ, zero, suc, ◌+◌, ◌<◌, ◌≡◌, ◌≢◌, refl, Bool, true, false, Option, none, some, List, [], ◌∷◌,
  ◌==◌, ltb, if◌then◌else◌, arith, Bool-cases, inl, inr, ◌∙◌, ap, length,
}
use iosdbg.Base.Int.{ℤ, pos, negsuc}
use iosdbg.Debuggee.{MachThread}
use iosdbg.Thread.{Comparison, ports, focused, compares}

-- The index of the thread that `find_with_cond` finds.
unfoldable pub index_with : Comparison → List MachThread → Option ℕ
index_with c [] = none
index_with c (t ∷ ts) =
    let rest = index_with c ts in
    if compares c t then some 0 else elim rest [ none ↦ none | some i ↦ some (suc i) ]

-- `t->focused = flag`
unfoldable pub set_flag : ℕ → Bool → List MachThread → List MachThread
set_flag i flag [] = []
set_flag zero flag (t ∷ ts) = record t { focused = flag } ∷ ts
set_flag (suc i) flag (t ∷ ts) = t ∷ set_flag i flag ts

abbrev pub clear_flag : Option ℕ → List MachThread → List MachThread
clear_flag none ts = ts
clear_flag (some i) ts = set_flag i false ts

-- The new thread gets the flag before the one that had it loses it.
unfoldable pub set_focused_thread : ℕ → List MachThread → List MachThread
set_focused_thread port ts =
    if port == 0
    then ts
    else let previous = index_with focused ts in
      elim (index_with (ports (pos port)) ts) [
        | none ↦ ts
        | some i ↦ clear_flag previous (set_flag i true ts)
      ]

-- The loop of `set_focused_thread_with_idx`: the last thread up to the index, from `counter` on.
unfoldable pub thread_up_to : ℕ → ℤ → Option MachThread → List MachThread → Option MachThread
thread_up_to counter focus_index newfocus [] = newfocus
thread_up_to counter (pos n) newfocus (t ∷ ts) =
    let rest = thread_up_to (counter + 1) (pos n) (some t) ts in
    if ltb n counter then newfocus else rest
thread_up_to counter (negsuc n) newfocus (t ∷ ts) = newfocus

-- The status, 0 or -1, is whether a thread was found.
unfoldable pub set_focused_thread_with_idx : ℤ → List MachThread → Bool × List MachThread
unfolding set_focused_thread thread_up_to
set_focused_thread_with_idx focus_index ts = elim (thread_up_to 0 focus_index none ts) [
  | none ↦ (false, ts)
  | some t ↦ (true, set_focused_thread t.port ts)
]

-- The flag at an index, `false` out of range.
abbrev pub focused_at : ℕ → List MachThread → Bool
focused_at i [] = false
focused_at zero (t ∷ ts) = t.focused
focused_at (suc i) (t ∷ ts) = focused_at i ts

index_with-lt :
    (c : Comparison) (ts : List MachThread) (i : ℕ) → index_with c ts ≡ some i → i < length ts
unfolding index_with
index_with-lt c [] i e = absurd (cc)
index_with-lt c (t ∷ ts) i e = elim (Bool-cases (compares c t)) [
  | inl hit ↦ ground arith
  | inr miss ↦ go (index_with c ts) (index_with-lt c ts) (rw miss at e)
]
  where
    go :
        (r : Option ℕ)
        → ((j : ℕ) → r ≡ some j → j < length ts)
        → elim r [ none ↦ none | some j ↦ some (suc j) ] ≡ some i
        → i < suc (length ts)
    go none bound e = absurd (cc)
    go (some j) bound e = let before = bound j refl in let same : suc j ≡ i = cc in omega arith

focused_at-set_flag :
    (i p : ℕ) (flag : Bool) (ts : List MachThread)
    → i < length ts
    → focused_at p (set_flag i flag ts) ≡ (if p == i then flag else focused_at p ts)
unfolding set_flag
focused_at-set_flag i p flag [] h = absurd (omega arith)
focused_at-set_flag zero zero flag (t ∷ ts) h = refl
focused_at-set_flag zero (suc p) flag (t ∷ ts) h =
    let e : (suc p == 0) ≡ false = ground arith in rw e refl
focused_at-set_flag (suc i) zero flag (t ∷ ts) h =
    let e : (0 == suc i) ≡ false = ground arith in rw e refl
focused_at-set_flag (suc i) (suc p) flag (t ∷ ts) h =
    let e : (suc p == suc i) ≡ (p == i) = ground arith in
    rw e (focused_at-set_flag i p flag ts (omega arith))

index_with-focused :
    (ts : List MachThread) (j : ℕ)
    → focused_at j ts ≡ true
    → ((p : ℕ) → p < j → focused_at p ts ≡ false)
    → index_with focused ts ≡ some j
unfolding index_with compares
index_with-focused [] j h before = absurd (cc)
index_with-focused (t ∷ ts) zero h before = rw h refl
index_with-focused (t ∷ ts) (suc j) h before =
    rw (before 0 (omega arith), index_with-focused ts j h (λ p lt. before (suc p) (omega arith)))
      refl

set_flag-set_flag :
    (i : ℕ) (a b : Bool) (ts : List MachThread) → set_flag i a (set_flag i b ts) ≡ set_flag i a ts
unfolding set_flag
set_flag-set_flag i a b [] = refl
set_flag-set_flag zero a b (t ∷ ts) = refl
set_flag-set_flag (suc i) a b (t ∷ ts) = ap (λ r. t ∷ r) (set_flag-set_flag i a b ts)

length-set_flag : (i : ℕ) (a : Bool) (ts : List MachThread) → length (set_flag i a ts) ≡ length ts
unfolding set_flag
length-set_flag i a [] = refl
length-set_flag zero a (t ∷ ts) = refl
length-set_flag (suc i) a (t ∷ ts) = ap suc (length-set_flag i a ts)

module _ (port : ℕ) (ts : List MachThread) (i : ℕ) (ne : port ≢ 0)
    (found : index_with (ports (pos port)) ts ≡ some i) where
  live : (port == 0) ≡ false
  live = ground (arith, ne)

  -- For a port that is not NULL: if exactly one thread has the focus, and the first thread with the
  -- port is another one, then after `set_focused_thread` exactly that one has the focus.
  pub set_focused_thread-only :
      (j : ℕ)
      → j ≢ i
      → ((p : ℕ) → focused_at p ts ≡ (p == j))
      → (p : ℕ) → focused_at p (set_focused_thread port ts) ≡ (p == i)
  unfolding set_focused_thread
  set_focused_thread-only j other only p =
      let at : focused_at j ts ≡ true = only j ∙ ground arith in
      let previous = index_with-focused ts j at (λ q lt. only q ∙ ground arith) in
      let i_lt = index_with-lt (ports (pos port)) ts i found in
      let j_lt = index_with-lt focused ts j previous in
      rw
        (
          live,
          found,
          previous,
          focused_at-set_flag j p false (set_flag i true ts)
              (omega (arith, length-set_flag i true ts)),
          focused_at-set_flag i p true ts i_lt,
          only p,
        )
        (ground (arith, other))

  -- For a port that is not NULL: if the first thread with the port is the first one that has the
  -- focus, it loses it.
  pub set_focused_thread-again :
      index_with focused ts ≡ some i → set_focused_thread port ts ≡ set_flag i false ts
  unfolding set_focused_thread
  set_focused_thread-again same = rw (live, found, same) (set_flag-set_flag i false true ts)
