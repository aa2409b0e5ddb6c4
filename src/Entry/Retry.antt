-- ===== src/Entry/Retry.antt =====
-- What a process gets from hako_impl.cpp after the master has begun, and after a call that has failed.
use hakoniwa_core_cpp.Prelude.{
  ℕ, ℤ, Bool, true, false, none, some, ◌≡◌, refl, arith, Bool-cases, Option-cases, inl, inr,
}
use hakoniwa_core_cpp.Master.Types.{stopped}
use hakoniwa_core_cpp.Master.Assets.{init}
use hakoniwa_core_cpp.Pdu.Types.{returns}
use hakoniwa_core_cpp.Entry.{
  Memory, MasterData, Process, load_data, hako_init, find_data, create_asset_controller,
  get_simevent_controller,
}

-- Creation succeeds, and what is created can be loaded by whoever has not mapped it.
pub record IsMemory (b : Memory) (size : ℕ) : Type 0 where
  pub creates : (s : b.Store) → (b.create_memory size s b.fresh).2 ≡ true
  pub loads :
      (s : b.Store) → (b.load_memory size (b.create_memory size s b.fresh).0 b.fresh).1 ≡ true

-- The controller works on mapped data.
abbrev pub IsUsable : (b : Memory) → Process b → Type 0
IsUsable b e = (d : MasterData b) × (e.master_data ≡ some d) × (d.is_mapped ≡ true)

module _ (b : Memory) (size max_asset_num : ℕ) where
  find_data-some :
      (has_config : Bool) (e : Process b) (d : MasterData b)
      → e.master_data ≡ some d
      → find_data b size max_asset_num has_config e ≡ (some d, true)
  unfolding find_data
  find_data-some has_config e d h = ground arith

  find_data-loads :
      (e : Process b)
      → e.master_data ≡ none
      → (b.load_memory size e.store b.fresh).1 ≡ true
      → (d : MasterData b) × (find_data b size max_asset_num true e ≡ (some d, true))
        × (d.is_mapped ≡ true)
  unfolding find_data load_data
  find_data-loads e h ok = (
    record { shmp = some (b.load_memory size e.store b.fresh).0; is_mapped = true },
    ground arith,
    refl,
  )

  -- What a failed attempt leaves.
  find_data-fails :
      (has_config : Bool) (e : Process b)
      → (find_data b size max_asset_num has_config e).1 ≡ false
      → (d : MasterData b) × ((find_data b size max_asset_num has_config e).0 ≡ some d)
        × (d.is_mapped ≡ false)
  unfolding find_data load_data
  find_data-fails has_config e h = elim (Option-cases e.master_data) [
    | inr (d, there) ↦ ground arith
    | inl gone ↦ elim (Bool-cases has_config) [
      | inl read ↦ (
        record { shmp = some (b.load_memory size e.store b.fresh).0; is_mapped = false },
        ground arith,
        refl,
      )
      | inr unread ↦ (record { shmp = none; is_mapped = false }, ground arith, refl)
    ]
  ]

  -- Over a memory that keeps its promise: after the first init of a master, another process that has no
  -- data yet, and can read its configuration, gets both controllers, over mapped data, and sees the
  -- simulation stopped and the master's pid.
  pub create-init :
      IsMemory b size
      → (pid : ℤ) (m e : Process b) → m.master_data ≡ none
      → e.master_data ≡ none
      → e.has_asset ≡ false
      → e.has_simevent ≡ false
      → (m' t u : Process b) × (hako_init b size max_asset_num pid m ≡ returns m')
        × (create_asset_controller b size max_asset_num true
              (record e { store = m'.store; master = m'.master })
            ≡ (t, true))
        × (get_simevent_controller b size max_asset_num true t ≡ (u, true))
        × IsUsable b u
        × (u.master.state ≡ stopped)
        × (u.master.master_pid ≡ pid)
  unfolding hako_init create_asset_controller get_simevent_controller init
  create-init v pid m e fresh_m fresh_e no_asset no_event =
      let h = (b.create_memory size m.store b.fresh).1 in
      let m' : Process b = record m {
        store = (b.create_memory size m.store b.fresh).0;
        master = init max_asset_num pid;
        master_data = some (record { shmp = some h; is_mapped = true });
      } in
      let e1 : Process b = record e { store = m'.store; master = m'.master } in
      let (d, found, mapped_) = find_data-loads e1 fresh_e (v.loads m.store) in
      let t : Process b = record e1 { master_data = some d; has_asset = true } in
      let again = find_data-some true t d refl in
      (
        m',
        t,
        record t { has_simevent = true },
        ground (arith, v.creates m.store),
        ground arith,
        ground arith,
        (d, refl, mapped_),
        refl,
        refl,
      )

  -- After a call of create_asset_controller that has found no memory or no configuration, the next one
  -- gives a controller, over data that are not mapped.
  pub create_asset_controller-retry :
      (first second : Bool) (e e' : Process b)
      → create_asset_controller b size max_asset_num first e ≡ (e', false)
      → (u : Process b) × (d : MasterData b) × (create_asset_controller b size max_asset_num second
            e'
          ≡ (u, true))
        × (u.master_data ≡ some d)
        × (d.is_mapped ≡ false)
  unfolding create_asset_controller
  create_asset_controller-retry first second e e' h = elim (Bool-cases e.has_asset) [
    | inl had ↦ ground arith
    | inr new ↦ elim (Bool-cases (find_data b size max_asset_num first e).1) [
      | inl ok ↦ ground arith
      | inr failed ↦
          let (d, left, unmapped) = find_data-fails first e failed in
          let kept : e'.master_data ≡ some d = ground arith in
          let still : e'.has_asset ≡ false = ground arith in
          let again = find_data-some second e' d kept in
          (record e' { master_data = some d; has_asset = true }, d, ground arith, refl, unmapped)
    ]
  ]
