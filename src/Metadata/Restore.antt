-- ===== src/Metadata/Restore.antt =====
-- rust/src/metadata_restore.rs: the plan of what a restoration applies and what it only preserves.
pub mod Total
use difz.Prelude.{
  ℕ, ◌+◌, ◌*◌, ◌-◌, ◌^◌, Bool, true, false, not, ◌&&◌, ◌||◌, List, [], ◌∷◌, ◌++◌, ltb, ◌==◌, bit_or,
  length, is_empty, is_some, if◌then◌else◌, Option, none, some, Result, ok, err, ◌>>=◌, ◌>>◌,
  reject,
}
use difz.Metadata.Kinds.{Os, linux, macos, mswin, os_tag, XattrClass, logical, raw}
use difz.Metadata.Family.{Family, xattr, acl, timestamps, finder, sparse, hardlink}
use difz.Metadata.Names.{raw_accepted}
use difz.Metadata.Records.{Xattr, NativeAcl, Metadata}
use difz.Metadata.Validation.{CanonicalMetadata}

pub data RestoreError : Type 0 where
  plan_impossible : RestoreError

pub record Capabilities : Type 0 where
  pub os : Os
  pub set_btime : Bool
  pub punch_holes : Bool
  pub hardlink : Bool
  pub portable_acl : Bool
  pub native_acl : Bool
  pub bsd_flags : Bool
  pub finder_info : Bool
  pub logical_xattr : Bool

unfoldable pub for_os : Os → Capabilities
for_os linux = record {
  os = linux;
  set_btime = false;
  punch_holes = true;
  hardlink = true;
  portable_acl = true;
  native_acl = true;
  bsd_flags = false;
  finder_info = false;
  logical_xattr = true;
}
for_os macos = record {
  os = macos;
  set_btime = true;
  punch_holes = true;
  hardlink = true;
  portable_acl = true;
  native_acl = true;
  bsd_flags = true;
  finder_info = true;
  logical_xattr = true;
}
for_os mswin = record {
  os = mswin;
  set_btime = true;
  punch_holes = false;
  hardlink = true;
  portable_acl = false;
  native_acl = true;
  bsd_flags = false;
  finder_info = false;
  logical_xattr = true;
}

pub record RestoreActions : Type 0 where
  pub logical_xattr : Bool
  pub raw_xattr : Bool
  pub raw_xattr_sidecar : Bool
  pub portable_acl : Bool
  pub portable_acl_sidecar : Bool
  pub native_acl : Bool
  pub native_acl_sidecar : Bool
  pub mtime_atime : Bool
  pub btime : Bool
  pub btime_sidecar : Bool
  pub bsd_flags : Bool
  pub bsd_flags_sidecar : Bool
  pub finder_info : Bool
  pub finder_info_sidecar : Bool
  pub punch_holes : Bool
  pub sparse_sidecar : Bool
  pub hardlink : Bool
  pub hardlink_copy : Bool

abbrev pub no_actions : RestoreActions
no_actions = record {
  logical_xattr = false;
  raw_xattr = false;
  raw_xattr_sidecar = false;
  portable_acl = false;
  portable_acl_sidecar = false;
  native_acl = false;
  native_acl_sidecar = false;
  mtime_atime = false;
  btime = false;
  btime_sidecar = false;
  bsd_flags = false;
  bsd_flags_sidecar = false;
  finder_info = false;
  finder_info_sidecar = false;
  punch_holes = false;
  sparse_sidecar = false;
  hardlink = false;
  hardlink_copy = false;
}

pub data Compromise : Type 0 where
  native_acl_preserved : Os → Bool → Compromise
  portable_acl_preserved finder_flags_preserved finder_info_preserved : Compromise
  birth_time_preserved sparse_preserved hardlink_copied raw_xattr_preserved : Compromise

-- The tag of `code()`.
unfoldable pub code_tag : Compromise → ℕ
code_tag (native_acl_preserved origin applied) = 1
code_tag portable_acl_preserved = 2
code_tag finder_flags_preserved = 3
code_tag finder_info_preserved = 4
code_tag birth_time_preserved = 5
code_tag sparse_preserved = 6
code_tag hardlink_copied = 7
code_tag raw_xattr_preserved = 8

unfoldable pub family_of : Compromise → Family
family_of (native_acl_preserved origin applied) = acl
family_of portable_acl_preserved = acl
family_of finder_flags_preserved = finder
family_of finder_info_preserved = finder
family_of birth_time_preserved = timestamps
family_of sparse_preserved = sparse
family_of hardlink_copied = hardlink
family_of raw_xattr_preserved = xattr

-- `self.0 |= 1 << (code as u8 - 1)`
unfoldable pub add_code : ℕ → ℕ → ℕ
add_code bits tag = bit_or bits (2 ^ (tag - 1))

-- The compromises are the first `length` of an array of ten.
pub record RestorePlan : Type 0 where
  pub actions : RestoreActions
  pub compromises : List Compromise

abbrev pub slots : ℕ
slots = 10

unfoldable pub push : Compromise → RestorePlan → Result RestoreError RestorePlan
push c plan = do
  reject (not (ltb (length plan.compromises) slots)) plan_impossible
  ok (record plan { compromises = plan.compromises ++ c ∷ [] })

unfoldable pub note_xattr : Os → Xattr → RestoreActions → RestoreActions
note_xattr os attr actions = elim attr.class [
  | logical ↦ record actions { logical_xattr = true }
  | raw ↦
      if raw_accepted os attr.name
      then record actions { raw_xattr = true }
      else record actions { raw_xattr_sidecar = true }
]

unfoldable pub note_xattrs : Os → List Xattr → RestoreActions → RestoreActions
note_xattrs os [] actions = actions
note_xattrs os (attr ∷ attrs) actions = note_xattrs os attrs (note_xattr os attr actions)

-- `plan.actions.mtime_atime = mtime.is_some() || atime.is_some()`
abbrev pub note_times : Bool → RestorePlan → RestorePlan
note_times present plan = record plan { actions = record plan.actions { mtime_atime = present } }

module _ (caps : Capabilities) where
  -- `require_transport`
  unfoldable pub require_transport : Result RestoreError (Unit {0})
  require_transport = reject (not caps.logical_xattr) plan_impossible

  unfoldable pub plan_xattrs : List Xattr → RestorePlan → Result RestoreError RestorePlan
  plan_xattrs attrs plan = do
    let actions = note_xattrs caps.os attrs plan.actions
    if actions.logical_xattr || actions.raw_xattr_sidecar then require_transport else ok tt
    if actions.raw_xattr_sidecar
        then push raw_xattr_preserved (record plan { actions = actions })
        else ok (record plan { actions = actions })

  -- A family that is there is applied if that is possible; otherwise the transport keeps it and
  -- the compromise is noted.
  unfoldable pub offer :
      Bool
      → Bool
      → RestoreActions
      → RestoreActions
      → Compromise
      → RestorePlan
      → Result RestoreError RestorePlan
  offer present possible applied kept c plan =
      if present
      then if possible
        then ok (record plan { actions = applied })
        else require_transport >> push c (record plan { actions = kept })
      else ok plan

  unfoldable pub plan_acl : Bool → NativeAcl → RestorePlan → Result RestoreError RestorePlan
  plan_acl has_aces native plan =
      let applied = has_aces && caps.portable_acl in
      let preserved = has_aces && not caps.portable_acl in
      let kept : RestoreActions = record plan.actions {
        native_acl_sidecar = true;
        portable_acl = applied;
        portable_acl_sidecar = preserved;
      } in
      if caps.native_acl && os_tag native.origin == os_tag caps.os
      then ok (record plan { actions = record plan.actions { native_acl = true } })
      else do
        require_transport
        noted ← push (native_acl_preserved native.origin applied) (record plan { actions = kept })
        if preserved then push portable_acl_preserved noted else ok noted

  unfoldable pub plan_acls : Bool → Option NativeAcl → RestorePlan → Result RestoreError RestorePlan
  plan_acls has_aces (some native) plan = plan_acl has_aces native plan
  plan_acls has_aces none plan =
      offer has_aces caps.portable_acl (record plan.actions { portable_acl = true })
        (record plan.actions { portable_acl_sidecar = true }) portable_acl_preserved plan

  unfoldable pub plan_btime : Bool → RestorePlan → Result RestoreError RestorePlan
  plan_btime present plan =
      offer present caps.set_btime (record plan.actions { btime = true })
        (record plan.actions { btime_sidecar = true }) birth_time_preserved plan

  unfoldable pub plan_flags : Bool → RestorePlan → Result RestoreError RestorePlan
  plan_flags present plan =
      offer present caps.bsd_flags (record plan.actions { bsd_flags = true })
        (record plan.actions { bsd_flags_sidecar = true }) finder_flags_preserved plan

  unfoldable pub plan_info : Bool → RestorePlan → Result RestoreError RestorePlan
  plan_info present plan =
      offer present caps.finder_info (record plan.actions { finder_info = true })
        (record plan.actions { finder_info_sidecar = true }) finder_info_preserved plan

  unfoldable pub plan_holes : Bool → RestorePlan → Result RestoreError RestorePlan
  plan_holes present plan =
      offer present caps.punch_holes (record plan.actions { punch_holes = true })
        (record plan.actions { sparse_sidecar = true }) sparse_preserved plan

  unfoldable pub plan_link : Bool → RestorePlan → Result RestoreError RestorePlan
  plan_link present plan =
      offer present caps.hardlink (record plan.actions { hardlink = true })
        (record plan.actions { hardlink_copy = true }) hardlink_copied plan

  unfoldable pub new : CanonicalMetadata → Result RestoreError RestorePlan
  new c = do
    let m = c.metadata
    named ← plan_xattrs m.xattrs (record { actions = no_actions; compromises = [] })
    guarded ← plan_acls (not (is_empty m.aces)) m.native_acl named
    born ←
        plan_btime (is_some m.times.btime)
          (note_times (is_some m.times.mtime || is_some m.times.atime) guarded)
    flagged ← plan_flags (not (m.finder_flags == 0)) born
    labelled ← plan_info (is_some m.finder_info) flagged
    punched ← plan_holes (not (is_empty m.holes)) labelled
    plan_link (is_some m.hardlink_to) punched
