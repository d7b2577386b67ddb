-- ===== src/Breakpoint/Preserve.antt =====
-- Every operation of source/breakpoint.c keeps the invariant of the list of breakpoints.
use iosdbg.Base.{
  ℕ, suc, ◌+◌, ◌≤◌, ◌≡◌, ◌≢◌, refl, Bool, true, false, Option, none, some, List, [], ◌∷◌, ◌++◌,
  if◌then◌else◌, length, length-append, arith, Bool-cases, inl, inr, ◌∙◌, ap, sym,
}
use iosdbg.Base.Int.{pos, incr, decr}
use iosdbg.LinkedList.Items.{add_item, has_key, length-drop_key}
use iosdbg.Debuggee.{Ptr, Breakpoint, Kernel, Debuggee}
use iosdbg.Breakpoint.{self_of, Error, not_found, Made}
use iosdbg.Breakpoint.State.{
  poke, install, install_made, bp_set_state_internal, bp_delete_internal, on_id, find_id,
  breakpoint_hit, breakpoint_delete_specific,
}
use iosdbg.Breakpoint.Inv.{
  IsValid, Consistent, Consistent-append_one, ids_ok, none_null, add_item-append,
}
use iosdbg.Breakpoint.Frame.{set_state-Flagged, delete-Deleted}
use iosdbg.Breakpoint.Shape.{
  Sub, nil, keep, skip, Consistent-Sub, drop_key-Sub, SameShape, Consistent-update_bp,
  length-update_bp, each, Consistent-each, length-each,
}
use iosdbg.Breakpoint.Loops.{SetAll, DeleteAll, flagged, remaining}
use iosdbg.Breakpoint.Middle.{decr-pos}
use iosdbg.Breakpoint.Steps.{NewPost}

Consistent-cong :
    {n n' next next' : ℕ} {bps bps' : List Breakpoint}
    → n' ≡ n
    → next' ≡ next
    → bps' ≡ bps
    → Consistent n next bps
    → Consistent n' next' bps'
Consistent-cong e₁ e₂ e₃ c = rw (e₁, e₂, e₃) c

ids_ok_mono : (n m : ℕ) (bps : List Breakpoint) → n ≤ m → ids_ok n bps ≡ true → ids_ok m bps ≡ true
ids_ok_mono n m [] le h = refl
ids_ok_mono n m (b ∷ bps) le h = ground (arith, ids_ok_mono n m bps le)

pub ne_null_of_mem :
    (p : Ptr) (bps : List Breakpoint) → none_null bps ≡ true → has_key self_of p bps ≡ true → p ≢ 0
ne_null_of_mem p [] nn h = λ _. cc
ne_null_of_mem p (b ∷ bps) nn h = λ e. ground (arith, ne_null_of_mem p bps, e)

find_id-mem :
    (id : ℕ) (bps : List Breakpoint) (bp : Breakpoint)
    → find_id id bps ≡ some bp
    → has_key self_of bp.self bps ≡ true
unfolding find_id
find_id-mem id [] bp e = cc
find_id-mem id (b ∷ bps) bp e = ground (arith, find_id-mem id bps bp)

remaining-Sub : (test : Breakpoint → Bool) (bps : List Breakpoint) → Sub (remaining test bps) bps
remaining-Sub test [] = nil
remaining-Sub test (b ∷ bps) = elim (Bool-cases (test b)) [
  | inl e ↦ rw e (skip b (remaining-Sub test bps))
  | inr e ↦ rw e (keep b (remaining-Sub test bps))
]

flagged-each :
    (test : Breakpoint → Bool) (off : Bool) (bps : List Breakpoint)
    → flagged test off bps ≡ each (λ b. if test b then record b { disabled = off } else b) bps
flagged-each test off [] = refl
flagged-each test off (b ∷ bps) = rw (flagged-each test off bps) refl

flag-SameShape :
    (test : Breakpoint → Bool) (off : Bool) (b : Breakpoint)
    → SameShape b (if test b then record b { disabled = off } else b)
flag-SameShape test off b = go (test b)
  where
    go : (t : Bool) → SameShape b (if t then record b { disabled = off } else b)
    go true = record { self = refl; id = refl; temporary = refl; hw = refl; hw_bp_reg = refl }
    go false = record { self = refl; id = refl; temporary = refl; hw = refl; hw_bp_reg = refl }

module _ {W : Type 0} (k : Kernel W) where
  install-lists :
      (bp : Breakpoint) (d : Debuggee W)
      → ((install k bp d).breakpoints ≡ add_item self_of d.breakpoints bp)
        × ((install k bp d).num_breakpoints ≡ incr d.num_breakpoints)
        × ((install k bp d).num_hw_bps ≡ d.num_hw_bps)
        × ((install k bp d).current_breakpoint_id ≡ d.current_breakpoint_id)
  unfolding install poke
  install-lists bp d = elim (Bool-cases bp.hw) [
    | inl e ↦ rw e (refl, refl, refl, refl)
    | inr e ↦ rw e (refl, refl, refl, refl)
  ]

  pub install_made-IsValid :
      (for_stepping : Bool) (self : Ptr) (d : Debuggee W) (m : Made k)
      → IsValid d
      → self ≢ 0
      → has_key self_of self d.breakpoints ≡ false
      → NewPost k self d m
      → IsValid (install_made k for_stepping m).1
  unfolding install_made
  install_made-IsValid fs self d (inl e, d') v ne fresh (bps, num, hw, le) = record {
    count = num ∙ v.count ∙ ap (λ (l : List Breakpoint). pos (length l)) (sym bps);
    consistent = Consistent-cong hw refl bps (record {
      distinct = v.consistent.distinct;
      null_free = v.consistent.null_free;
      regs = v.consistent.regs;
      ids =
          ids_ok_mono d.current_breakpoint_id d'.current_breakpoint_id d.breakpoints le
            v.consistent.ids;
    });
  }
  install_made-IsValid fs self d (inr (bp, ws), d') v ne fresh (bps, num, hw, next, at, id, reg) =
      let bp' : Breakpoint = record bp { for_stepping = fs } in
      let (bps', num', hw', next') = install-lists bp' d' in
      let ne' : bp.self ≢ 0 = rw at ne in
      let fresh' : has_key self_of bp.self d.breakpoints ≡ false = rw at fresh in
      let whole : add_item self_of d'.breakpoints bp' ≡ d.breakpoints ++ (bp' ∷ []) =
        rw bps (add_item-append d.breakpoints bp' ne') in
      let one_more : suc (length d.breakpoints) ≡ length (d.breakpoints ++ (bp' ∷ [])) =
        omega (arith, length-append d.breakpoints (bp' ∷ [])) in
      record {
        count =
            num'
            ∙ ap incr (num ∙ v.count)
            ∙ ap pos one_more
            ∙ ap (λ (l : List Breakpoint). pos (length l)) (sym (bps' ∙ whole));
        consistent =
            Consistent-cong (hw' ∙ hw) (next' ∙ next) (bps' ∙ whole)
              (Consistent-append_one bp' v.consistent ne' fresh' id reg);
      }

  pub set_state-IsValid :
      (bp : Breakpoint) (off : Bool) (d : Debuggee W)
      → IsValid d
      → IsValid (bp_set_state_internal k bp off d)
  set_state-IsValid bp off d v =
      let f = set_state-Flagged k bp off d in
      let flag = λ (b : Breakpoint). record b { disabled = off } in
      let same : (b : Breakpoint) → SameShape b (flag b) =
        λ b. record { self = refl; id = refl; temporary = refl; hw = refl; hw_bp_reg = refl } in
      record {
        count =
            f.num
            ∙ v.count
            ∙ ap pos
                (sym (ap length f.breakpoints ∙ length-update_bp bp.self flag same d.breakpoints));
        consistent =
            Consistent-cong f.num_hw f.next f.breakpoints
              (Consistent-update_bp bp.self flag same d.breakpoints v.consistent);
      }

  pub delete-IsValid :
      (bp : Breakpoint) (d : Debuggee W)
      → IsValid d
      → has_key self_of bp.self d.breakpoints ≡ true
      → IsValid (bp_delete_internal k bp d)
  delete-IsValid bp d v mem =
      let ne = ne_null_of_mem bp.self d.breakpoints v.consistent.null_free mem in
      let del = delete-Deleted k bp d ne v.consistent.distinct in
      record {
        count =
            del.num
            ∙ ap decr v.count
            ∙ decr-pos (sym (length-drop_key self_of bp.self d.breakpoints mem))
            ∙ ap (λ (l : List Breakpoint). pos (length l)) (sym del.breakpoints);
        consistent =
            Consistent-cong del.num_hw del.next del.breakpoints
              (Consistent-Sub (drop_key-Sub bp.self d.breakpoints) v.consistent);
      }

  pub hit-IsValid :
      (bp : Breakpoint) (d : Debuggee W)
      → IsValid d
      → has_key self_of bp.self d.breakpoints ≡ true
      → IsValid (breakpoint_hit k (some bp) d)
  unfolding breakpoint_hit breakpoint_delete_specific bp_delete_internal
  hit-IsValid bp d v mem =
      let hit = λ (b : Breakpoint). record b { hit_count = b.hit_count + 1 } in
      let same : (b : Breakpoint) → SameShape b (hit b) =
        λ b. record { self = refl; id = refl; temporary = refl; hw = refl; hw_bp_reg = refl } in
      elim (Bool-cases bp.temporary) [
        | inl e ↦ rw e (delete-IsValid bp d v mem)
        | inr e ↦ rw e (record {
          count = v.count ∙ ap pos (sym (length-update_bp bp.self hit same d.breakpoints));
          consistent = Consistent-update_bp bp.self hit same d.breakpoints v.consistent;
        })
      ]

  pub on_id-IsValid :
      (id : ℕ) (op : Breakpoint → Debuggee W → Debuggee W) (d : Debuggee W)
      → IsValid d
      → ((bp : Breakpoint) → has_key self_of bp.self d.breakpoints ≡ true → IsValid (op bp d))
      → IsValid (on_id k id op d).1
  unfolding on_id
  on_id-IsValid id op d v each = go (find_id id d.breakpoints) refl
    where
      go :
          (r : Option Breakpoint)
          → find_id id d.breakpoints ≡ r
          → IsValid
              (let out : Option Error × Debuggee W = elim r [
                | none ↦ (some (not_found id), d)
                | some bp ↦ (none, op bp d)
              ] in
                out).1
      go none e = v
      go (some bp) e = each bp (find_id-mem id d.breakpoints bp e)

  pub SetAll-IsValid :
      (test : Breakpoint → Bool) (off : Bool) (d d' : Debuggee W)
      → IsValid d
      → SetAll k test off d d' (flagged test off d.breakpoints)
      → IsValid d'
  SetAll-IsValid test off d d' v s =
      let flag = λ (b : Breakpoint). if test b then record b { disabled = off } else b in
      let e = flagged-each test off d.breakpoints in
      let same = flag-SameShape test off in
      record {
        count =
            s.num
            ∙ v.count
            ∙ ap pos (sym (ap length (s.breakpoints ∙ e) ∙ length-each flag same d.breakpoints));
        consistent =
            Consistent-cong s.num_hw s.next (s.breakpoints ∙ e)
              (Consistent-each flag same d.breakpoints v.consistent);
      }

  pub DeleteAll-IsValid :
      (test : Breakpoint → Bool) (d d' : Debuggee W)
      → IsValid d
      → DeleteAll k test d d' (remaining test d.breakpoints)
      → IsValid d'
  DeleteAll-IsValid test d d' v s = record {
    count = s.num ∙ ap (λ (l : List Breakpoint). pos (length l)) (sym s.breakpoints);
    consistent =
        Consistent-cong s.num_hw s.next s.breakpoints
          (Consistent-Sub (remaining-Sub test d.breakpoints) v.consistent);
  }
