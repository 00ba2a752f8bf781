-- ===== src/Metadata/Restore/Total.antt =====
-- rust/src/metadata_restore.rs: how many compromises a plan has.
use difz.Prelude.{
  ℕ, ◌+◌, ◌<◌, ◌≤◌, ◌≡◌, refl, Bool, true, false, not, ◌&&◌, ◌||◌, List, [], ◌∷◌, ◌++◌, Option,
  none, some, arith, lt→ltb, length, length-append, is_empty, is_some, ◌==◌, if◌then◌else◌, Result,
  ok, ◌>>=◌,
}
use difz.Metadata.Kinds.{os_tag}
use difz.Metadata.Records.{Xattr, NativeAcl}
use difz.Metadata.Validation.{CanonicalMetadata}
use difz.Metadata.Restore.{
  RestoreError, Capabilities, RestoreActions, no_actions, Compromise, native_acl_preserved,
  portable_acl_preserved, raw_xattr_preserved, RestorePlan, slots, push, note_xattrs,
  require_transport, plan_xattrs, offer, plan_acl, plan_acls, plan_btime, plan_flags, plan_info,
  plan_holes, plan_link, note_times, new,
}

-- A step that succeeds and notes at most so many compromises more than there were.
abbrev Adds : ℕ → ℕ → Result RestoreError RestorePlan → Type 0
Adds before n r = (q : RestorePlan) × (r ≡ ok q) × (length q.compromises ≤ before + n)

push-Adds :
    (c : Compromise) (p : RestorePlan)
    → length p.compromises < slots
    → Adds (length p.compromises) 1 (push c p)
unfolding push
push-Adds c p room = (
  record p { compromises = p.compromises ++ c ∷ [] },
  rw (lt→ltb (length p.compromises) slots room) refl,
  omega (arith, length-append p.compromises (c ∷ [])),
)

Adds-bind :
    (before m n : ℕ) (r : Result RestoreError RestorePlan)
    (f : RestorePlan → Result RestoreError RestorePlan)
    → Adds before m r
    → ((q : RestorePlan) → length q.compromises ≤ before + m → Adds (length q.compromises) n (f q))
    → Adds before (m + n) (r >>= f)
Adds-bind before m n r f (q, done, few) next =
    let (s, also, small) = next q few in (s, rw done also, omega (arith, few, small))

Adds-if :
    (before n : ℕ) (b : Bool) (r s : Result RestoreError RestorePlan)
    → Adds before n r
    → Adds before n s
    → Adds before n (if b then r else s)
Adds-if before n true r s h k = h
Adds-if before n false r s h k = k

Adds-weaken :
    (before m n : ℕ) (r : Result RestoreError RestorePlan)
    → m ≤ n
    → Adds before m r
    → Adds before n r
Adds-weaken before m n r le (q, done, few) = (q, done, omega (arith, le, few))

module _ (caps : Capabilities) (transport : caps.logical_xattr ≡ true) where
  transported : require_transport caps ≡ ok tt
  unfolding require_transport
  transported = rw transport refl

  transported_if : (b : Bool) → (if b then require_transport caps else ok tt) ≡ ok tt
  transported_if true = transported
  transported_if false = refl

  offer-Adds :
      (present possible : Bool) (applied kept : RestoreActions) (c : Compromise) (p : RestorePlan)
      → length p.compromises < slots
      → Adds (length p.compromises) 1 (offer caps present possible applied kept c p)
  unfolding offer
  offer-Adds false possible applied kept c p room = (p, refl, omega arith)
  offer-Adds true true applied kept c p room = (record p { actions = applied }, refl, omega arith)
  offer-Adds true false applied kept c p room =
      rw transported (push-Adds c (record p { actions = kept }) room)

  plan_xattrs-Adds :
      (attrs : List Xattr) (p : RestorePlan)
      → length p.compromises < slots
      → Adds (length p.compromises) 1 (plan_xattrs caps attrs p)
  unfolding plan_xattrs
  plan_xattrs-Adds attrs p room =
      let noted = note_xattrs caps.os attrs p.actions in
      let p' : RestorePlan = record p { actions = noted } in
      rw (transported_if (noted.logical_xattr || noted.raw_xattr_sidecar)) (
        Adds-if (length p.compromises) 1 noted.raw_xattr_sidecar (push raw_xattr_preserved p')
          (ok p') (push-Adds raw_xattr_preserved p' room) (p', refl, omega arith))

  plan_acls-Adds :
      (has_aces : Bool) (o : Option NativeAcl) (p : RestorePlan)
      → length p.compromises + 1 < slots
      → Adds (length p.compromises) 2 (plan_acls caps has_aces o p)
  unfolding plan_acls plan_acl
  plan_acls-Adds has_aces none p room =
      Adds-weaken (length p.compromises) 1 2 _ (omega arith)
        (offer-Adds has_aces caps.portable_acl _ _ portable_acl_preserved p (omega (arith, room)))
  plan_acls-Adds has_aces (some native) p room =
      let applied = has_aces && caps.portable_acl in
      let preserved = has_aces && not caps.portable_acl in
      let n = length p.compromises in
      Adds-if n 2 (caps.native_acl && os_tag native.origin == os_tag caps.os) _ _
        (record p { actions = record p.actions { native_acl = true } }, refl, omega arith)
        (rw transported (
          Adds-bind n 1 1 _
            (λ noted. if preserved then push portable_acl_preserved noted else ok noted)
            (push-Adds (native_acl_preserved native.origin applied) _ (omega (arith, room)))
            (λ q few.
              Adds-if (length q.compromises) 1 preserved (push portable_acl_preserved q) (ok q)
                (push-Adds portable_acl_preserved q (omega (arith, room, few)))
                (q, refl, omega arith))))

  -- If a file system can hold logical attributes, every canonical record has a restoration plan,
  -- with at most eight compromises: the plan's ten slots are never exceeded.
  pub new-total :
      (c : CanonicalMetadata)
      → (plan : RestorePlan) × (new caps c ≡ ok plan) × (length plan.compromises ≤ 8)
  unfolding new plan_btime plan_flags plan_info plan_holes plan_link
  new-total c =
      let m = c.metadata in
      Adds-bind 0 1 7 _ _
        (plan_xattrs-Adds m.xattrs (record { actions = no_actions; compromises = [] })
          (omega arith))
        λ p₁ s₁.
          Adds-bind (length p₁.compromises) 2 5 _ _
            (plan_acls-Adds (not (is_empty m.aces)) m.native_acl p₁ (omega (arith, s₁)))
            λ p₂ s₂.
              Adds-bind (length p₂.compromises) 1 4 _ _
                (offer-Adds (is_some m.times.btime) caps.set_btime _ _ _
                  (note_times (is_some m.times.mtime || is_some m.times.atime) p₂)
                  (omega (arith, s₁, s₂)))
                λ p₃ s₃.
                  Adds-bind (length p₃.compromises) 1 3 _ _
                    (offer-Adds (not (m.finder_flags == 0)) caps.bsd_flags _ _ _ p₃
                      (omega (arith, s₁, s₂, s₃)))
                    λ p₄ s₄.
                      Adds-bind (length p₄.compromises) 1 2 _ _
                        (offer-Adds (is_some m.finder_info) caps.finder_info _ _ _ p₄
                          (omega (arith, s₁, s₂, s₃, s₄)))
                        λ p₅ s₅.
                          Adds-bind (length p₅.compromises) 1 1 _ _
                            (offer-Adds (not (is_empty m.holes)) caps.punch_holes _ _ _ p₅
                              (omega (arith, s₁, s₂, s₃, s₄, s₅)))
                            λ p₆ s₆.
                              offer-Adds (is_some m.hardlink_to) caps.hardlink _ _ _ p₆
                                (omega (arith, s₁, s₂, s₃, s₄, s₅, s₆))
