-- ===== src/Breakpoint/Loops.antt =====
-- The loops of source/breakpoint.c over all breakpoints.
use iosdbg.Base.{
  ◌≡◌, ◌≢◌, refl, Bool, true, false, List, [], ◌∷◌, ◌++◌, if◌then◌else◌, length, length-append,
  arith, Bool-cases, inl, inr, ◌∙◌, ap, sym,
}
use mathlib.Core.List.{append_assoc}
use iosdbg.Base.Int.{pos, decr}
use iosdbg.LinkedList.Items.{Distinct}
use iosdbg.Debuggee.{Breakpoint, Kernel, Debuggee}
use iosdbg.Breakpoint.{self_of, Cond, meets}
use iosdbg.Breakpoint.State.{
  bp_set_state_internal, bp_delete_internal, foreach, breakpoint_enable_all, breakpoint_disable_all,
  breakpoint_enable_all_specific, breakpoint_disable_all_except, breakpoint_delete_all,
  breakpoint_delete_all_specific, needs_disable,
}
use iosdbg.Breakpoint.Inv.{IsValid, none_null}
use iosdbg.Breakpoint.Frame.{set_state-Flagged, delete-Deleted}
use iosdbg.Breakpoint.Middle.{
  Distinct-middle, update_bp-middle, drop_key-middle, Distinct-swap, Distinct-drop, decr-pos,
}

-- What is left when the breakpoints that a test selects are taken out.
abbrev pub remaining : (Breakpoint → Bool) → List Breakpoint → List Breakpoint
remaining test [] = []
remaining test (b ∷ bps) = if test b then remaining test bps else b ∷ remaining test bps

-- The flag of each breakpoint that a test selects.
abbrev pub flagged : (Breakpoint → Bool) → Bool → List Breakpoint → List Breakpoint
flagged test off [] = []
flagged test off (b ∷ bps) =
    (if test b then record b { disabled = off } else b) ∷ flagged test off bps

module _ {W : Type 0} (k : Kernel W) (test : Breakpoint → Bool) where
  pub record SetAll (off : Bool) (d d' : Debuggee W) (bps : List Breakpoint) : Type 0 where
    pub breakpoints : d'.breakpoints ≡ bps
    pub num : d'.num_breakpoints ≡ d.num_breakpoints
    pub num_hw : d'.num_hw_bps ≡ d.num_hw_bps
    pub next : d'.current_breakpoint_id ≡ d.current_breakpoint_id

  foreach-SetAll :
      (off : Bool) (kept rest : List Breakpoint) (d : Debuggee W)
      → d.breakpoints ≡ kept ++ rest
      → Distinct self_of (kept ++ rest)
      → SetAll off d
          (foreach k test (λ bp. bp_set_state_internal k bp off) rest d)
          (kept ++ flagged test off rest)
  unfolding foreach
  foreach-SetAll off kept [] d e distinct = record {
    breakpoints = e;
    num = refl;
    num_hw = refl;
    next = refl;
  }
  foreach-SetAll off kept (b ∷ rest) d e distinct = elim (Bool-cases (test b)) [
    | inl hit ↦
        let f = set_state-Flagged k b off d in
        let (before, behind) = Distinct-middle kept rest b distinct in
        let b' : Breakpoint = record b { disabled = off } in
        let assoc = append_assoc kept (b' ∷ []) rest in
        let now =
          f.breakpoints
          ∙ rw e (update_bp-middle kept rest b (λ c. record c { disabled = off }) before behind) in
        let r =
          foreach-SetAll off (kept ++ (b' ∷ [])) rest (bp_set_state_internal k b off d)
            (now ∙ sym assoc) (rw assoc (Distinct-swap kept rest b b' refl distinct)) in
        rw hit (record {
          breakpoints = r.breakpoints ∙ append_assoc kept (b' ∷ []) (flagged test off rest);
          num = r.num ∙ f.num;
          num_hw = r.num_hw ∙ f.num_hw;
          next = r.next ∙ f.next;
        })
    | inr miss ↦
        let assoc = append_assoc kept (b ∷ []) rest in
        let r = foreach-SetAll off (kept ++ (b ∷ [])) rest d (e ∙ sym assoc) (rw assoc distinct) in
        rw miss (record {
          breakpoints = r.breakpoints ∙ append_assoc kept (b ∷ []) (flagged test off rest);
          num = r.num;
          num_hw = r.num_hw;
          next = r.next;
        })
  ]

  pub record DeleteAll (d d' : Debuggee W) (bps : List Breakpoint) : Type 0 where
    pub breakpoints : d'.breakpoints ≡ bps
    pub num : d'.num_breakpoints ≡ pos (length bps)
    pub num_hw : d'.num_hw_bps ≡ d.num_hw_bps
    pub next : d'.current_breakpoint_id ≡ d.current_breakpoint_id

  foreach-DeleteAll :
      (kept rest : List Breakpoint) (d : Debuggee W)
      → d.breakpoints ≡ kept ++ rest
      → d.num_breakpoints ≡ pos (length (kept ++ rest))
      → Distinct self_of (kept ++ rest)
      → none_null rest ≡ true
      → DeleteAll d (foreach k test (bp_delete_internal k) rest d) (kept ++ remaining test rest)
  unfolding foreach
  foreach-DeleteAll kept [] d e n distinct nn = record {
    breakpoints = e;
    num = n;
    num_hw = refl;
    next = refl;
  }
  foreach-DeleteAll kept (b ∷ rest) d e n distinct nn = elim (Bool-cases (test b)) [
    | inl hit ↦
        let ne : b.self ≢ 0 = ground arith in
        let del = delete-Deleted k b d ne (rw e distinct) in
        let (before, behind) = Distinct-middle kept rest b distinct in
        let fewer : decr (pos (length (kept ++ (b ∷ rest)))) ≡ pos (length (kept ++ rest)) =
          decr-pos (omega (arith, length-append kept (b ∷ rest), length-append kept rest)) in
        let r =
          foreach-DeleteAll kept rest (bp_delete_internal k b d)
            (del.breakpoints ∙ rw e (drop_key-middle kept rest b before))
            (del.num ∙ ap decr n ∙ fewer) (Distinct-drop kept rest b distinct)
            (ground (arith, nn)) in
        rw hit (record {
          breakpoints = r.breakpoints;
          num = r.num;
          num_hw = r.num_hw ∙ del.num_hw;
          next = r.next ∙ del.next;
        })
    | inr miss ↦
        let assoc = append_assoc kept (b ∷ []) rest in
        let r =
          foreach-DeleteAll (kept ++ (b ∷ [])) rest d (e ∙ sym assoc)
            (n ∙ ap (λ l. pos (length l)) (sym assoc)) (rw assoc distinct) (ground (arith, nn)) in
        let assoc' = append_assoc kept (b ∷ []) (remaining test rest) in
        rw miss (record {
          breakpoints = r.breakpoints ∙ assoc';
          num = r.num ∙ ap (λ l. pos (length l)) assoc';
          num_hw = r.num_hw;
          next = r.next;
        })
  ]

  pub set_all :
      (off : Bool) (d : Debuggee W)
      → IsValid d
      → SetAll off d
          (foreach k test (λ bp. bp_set_state_internal k bp off) d.breakpoints d)
          (flagged test off d.breakpoints)
  set_all off d v = foreach-SetAll off [] d.breakpoints d refl v.consistent.distinct

  pub delete_all :
      (d : Debuggee W)
      → IsValid d
      → DeleteAll d
          (foreach k test (bp_delete_internal k) d.breakpoints d)
          (remaining test d.breakpoints)
  delete_all d v =
      foreach-DeleteAll [] d.breakpoints d refl v.count v.consistent.distinct v.consistent.null_free

module _ {W : Type 0} (k : Kernel W) (d : Debuggee W) (v : IsValid d) where
  -- From a valid state, `breakpoint_delete_all_specific` leaves exactly the breakpoints that the
  -- condition does not select, in their order, and the count is their number.
  pub breakpoint_delete_all_specific-remaining :
      (way : Cond)
      → ((breakpoint_delete_all_specific k way d).breakpoints ≡ remaining (meets way) d.breakpoints)
        × ((breakpoint_delete_all_specific k way d).num_breakpoints
            ≡ pos (length (remaining (meets way) d.breakpoints)))
  unfolding breakpoint_delete_all_specific
  breakpoint_delete_all_specific-remaining way =
      let r = delete_all k (meets way) d v in (r.breakpoints, r.num)

  remaining-all : (bps : List Breakpoint) → remaining (λ _. true) bps ≡ []
  remaining-all [] = refl
  remaining-all (b ∷ bps) = remaining-all bps

  -- From a valid state, `breakpoint_delete_all` leaves no breakpoint, and the count is 0.
  pub breakpoint_delete_all-nil :
      ((breakpoint_delete_all k d).breakpoints ≡ [])
      × ((breakpoint_delete_all k d).num_breakpoints ≡ pos 0)
  unfolding breakpoint_delete_all
  breakpoint_delete_all-nil =
      let r = delete_all k (λ _. true) d v in
      let e = remaining-all d.breakpoints in (r.breakpoints ∙ e, r.num ∙ ap (λ l. pos (length l)) e)

  -- From a valid state, the loops that enable or disable change the list in the flags of exactly
  -- the breakpoints that are selected: all of them; those that the condition selects; or all, all
  -- but the stepping breakpoints or none, by what `breakpoint_disable_all_except` is given.
  pub loops-flagged :
      (way : Cond)
      → ((breakpoint_enable_all k d).breakpoints ≡ flagged (λ _. true) false d.breakpoints)
        × ((breakpoint_disable_all k d).breakpoints ≡ flagged (λ _. true) true d.breakpoints)
        × ((breakpoint_enable_all_specific k way d).breakpoints
            ≡ flagged (meets way) false d.breakpoints)
        × ((breakpoint_disable_all_except k way d).breakpoints
            ≡ flagged (needs_disable way) true d.breakpoints)
  unfolding breakpoint_enable_all breakpoint_disable_all breakpoint_enable_all_specific
      breakpoint_disable_all_except
  loops-flagged way = (
    (set_all k (λ _. true) false d v).breakpoints,
    (set_all k (λ _. true) true d v).breakpoints,
    (set_all k (meets way) false d v).breakpoints,
    (set_all k (needs_disable way) true d v).breakpoints,
  )
