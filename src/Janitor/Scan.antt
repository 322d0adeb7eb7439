-- ===== src/Janitor/Scan.antt =====
-- What the janitor releases, and what it reports.
use ens_provider.Prelude.{
  ◌≡◌, refl, sym, ◌⊎◌, inl, inr, ◌&&◌, not, Bool, true, false, Option, none, some, List, [], ◌∷◌,
  Str, codes, str_eq, str_eq→eq, str_eq_iff, is_empty→eq, is_empty, In, ℤ, ◌-ℤ◌, ◌<ℤ◌, leb_ℤ, arith,
  Bool-cases, Option-cases,
}
use ens_provider.Config.{Config}
use ens_provider.Inventory.{Instance, ok}
use ens_provider.Metrics.{Metrics}
use ens_provider.Server.{one_of}
use ens_provider.Janitor.{
  JanitorAction, dead_state, unjoined_for, dead_status, node_exists, scan_running, scan_instance,
  cons_some, janitor_scan, releases, run_janitor,
}

module _ (parse_time : Str → Option ℤ) (now : ℤ) (cfg : Config) (joined node_keys : List Str) where
  -- The instance is dead, or has been running without a node for longer than the join timeout.
  abbrev pub IsDue : Instance → Type 0
  IsDue i =
      (dead_status i.status ≡ true)
      ⊎ ((i.status ≡ codes "Running")
          × (created : ℤ) × (parse_time i.creation_time ≡ some created)
          × (cfg.join_timeout <ℤ now -ℤ created))

  -- All gates of a release.
  pub record IsReleasable (i : Instance) : Type 0 where
    pub enabled : cfg.janitor_release ≡ true
    pub unjoined : one_of i.id joined ≡ false
    pub no_node : node_exists node_keys i ≡ false
    pub due : IsDue i

  scan_running-due :
      (id : Str) (release : Bool) (o : Option ℤ) (a : JanitorAction)
      → scan_running now cfg id release o ≡ some a
      → (created : ℤ) × (o ≡ some created)
        × (cfg.join_timeout <ℤ now -ℤ created)
        × (a.instance_id ≡ id)
        × (a.release ≡ release)
  unfolding scan_running
  scan_running-due id release none a h = cc
  scan_running-due id release (some created) a h =
      (created, refl, ground arith, ground arith, ground arith)

  scan_instance_lem :
      (i : Instance) (a : JanitorAction)
      → scan_instance parse_time now cfg joined node_keys i ≡ some a
      → (a.instance_id ≡ i.id)
        × (a.release ≡ (cfg.janitor_release && not (node_exists node_keys i)))
        × (one_of i.id joined ≡ false)
        × IsDue i
  unfolding scan_instance
  scan_instance_lem i a h = elim (Bool-cases (one_of i.id joined)) [
    | inl yes_joined ↦ cc (rw yes_joined at h)
    | inr apart ↦
        (let h₁ = rw apart at h in
          elim (Bool-cases (dead_status i.status)) [
            | inl dead ↦ (let h₂ = rw dead at h₁ in (ground arith, ground arith, apart, inl dead))
            | inr alive ↦
                (let h₂ = rw alive at h₁ in
                  elim (Bool-cases (str_eq i.status (codes "Running"))) [
                    | inr other ↦ cc (rw other at h₂)
                    | inl booted ↦
                        (let h₃ = rw booted at h₂ in
                          elim (Bool-cases (is_empty i.creation_time)) [
                            | inl unknown ↦ cc (rw unknown at h₃)
                            | inr known ↦
                                (let (created, parsed, late, same, released) =
                                    scan_running-due i.id _ (parse_time i.creation_time) a
                                      (rw known at h₃) in
                                  (
                                    same,
                                    released,
                                    apart,
                                    inr (
                                      str_eq→eq i.status (codes "Running") booted,
                                      created,
                                      parsed,
                                      late,
                                    ),
                                  ))
                          ])
                  ])
          ])
  ]

  -- An action of the scan is one of an owned instance.
  janitor_scan-In :
      (owned : List Instance) (a : JanitorAction)
      → In a (janitor_scan parse_time now cfg owned joined node_keys)
      → (i : Instance) × In i owned × (scan_instance parse_time now cfg joined node_keys i ≡ some a)
  unfolding janitor_scan
  janitor_scan-In [] a h = absurd h
  janitor_scan-In (i ∷ owned) a h =
      elim (Option-cases (scan_instance parse_time now cfg joined node_keys i)) [
        | inl p ↦
            (let (j, listed, e) = janitor_scan-In owned a (rw (p, janitor_scan) at h) in
              (j, inr listed, e))
        | inr (b, p) ↦ elim_head i owned a b p (rw (p, janitor_scan) at h) (janitor_scan-In owned a)
      ]
    where
      elim_head :
          (i : Instance) (owned : List Instance) (a b : JanitorAction)
          → scan_instance parse_time now cfg joined node_keys i ≡ some b
          → (a ≡ b) ⊎ In a (janitor_scan parse_time now cfg owned joined node_keys)
          → (In a (janitor_scan parse_time now cfg owned joined node_keys)
              → (j : Instance) × In j owned
                × (scan_instance parse_time now cfg joined node_keys j ≡ some a))
          → (j : Instance) × In j (i ∷ owned)
            × (scan_instance parse_time now cfg joined node_keys j ≡ some a)
      elim_head i owned a b p (inl e) rec = (i, inl refl, rw e p)
      elim_head i owned a b p (inr m) rec = let (j, listed, e) = rec m in (j, inr listed, e)

  releases-In :
      (id : Str) (actions : List JanitorAction)
      → In id (releases actions)
      → (a : JanitorAction) × In a actions × (a.instance_id ≡ id) × (a.release ≡ true)
  unfolding releases
  releases-In id [] h = absurd h
  releases-In id (a ∷ rest) h = elim (Bool-cases a.release) [
    | inr alert ↦ let (b, m, e, r) = releases-In id rest (rw alert at h) in (b, inr m, e, r)
    | inl go ↦ elim_release a rest go (rw go at h) (releases-In id rest)
  ]
    where
      elim_release :
          (a : JanitorAction) (rest : List JanitorAction)
          → a.release ≡ true
          → (id ≡ a.instance_id) ⊎ In id (releases rest)
          → (In id (releases rest)
              → (b : JanitorAction) × In b rest × (b.instance_id ≡ id) × (b.release ≡ true))
          → (b : JanitorAction) × In b (a ∷ rest) × (b.instance_id ≡ id) × (b.release ≡ true)
      elim_release a rest go (inl e) rec = (a, inl refl, sym e, go)
      elim_release a rest go (inr m) rec = let (b, n, e, r) = rec m in (b, inr n, e, r)

  -- Whatever the janitor hands to ReleaseInstance is the id of an owned instance that passes every
  -- gate: the opt-in is set, the instance has not joined and no managed Node shows an identity of it,
  -- and it is dead or has been running for longer than the join timeout.
  pub run_janitor-IsReleasable :
      (owned : List Instance) (m : Metrics) (id : Str)
      → In id (run_janitor parse_time now cfg (ok owned) joined node_keys m).1
      → (i : Instance) × In i owned × (i.id ≡ id) × IsReleasable i
  unfolding run_janitor
  run_janitor-IsReleasable owned m id h =
      let (a, acted, same, allowed) =
        releases-In id (janitor_scan parse_time now cfg owned joined node_keys) h in
      let (i, listed, scanned) = janitor_scan-In owned a acted in
      let (id_eq, release_eq, apart, due) = scan_instance_lem i a scanned in
      (
        i,
        listed,
        cc (id_eq, same),
        record { enabled = ground arith; unjoined = apart; no_node = ground arith; due = due },
      )

  scan_dead :
      (i : Instance)
      → one_of i.id joined ≡ false
      → dead_status i.status ≡ true
      → (a : JanitorAction) × (scan_instance parse_time now cfg joined node_keys i ≡ some a)
        × (a.instance_id ≡ i.id)
  unfolding scan_instance
  scan_dead i apart dead = (
    record {
      instance_id = i.id;
      reason = dead_state i.status;
      release = cfg.janitor_release && not (node_exists node_keys i);
    },
    rw (apart, dead) refl,
    refl,
  )

  scan_late :
      (i : Instance) (created : ℤ)
      → one_of i.id joined ≡ false
      → dead_status i.status ≡ false
      → str_eq i.status (codes "Running") ≡ true
      → is_empty i.creation_time ≡ false
      → parse_time i.creation_time ≡ some created
      → cfg.join_timeout <ℤ now -ℤ created
      → (a : JanitorAction) × (scan_instance parse_time now cfg joined node_keys i ≡ some a)
        × (a.instance_id ≡ i.id)
  unfolding scan_instance
  scan_late i created apart alive booted known parsed late =
      let over : leb_ℤ (now -ℤ created) cfg.join_timeout ≡ false = ground arith in
      (
        record {
          instance_id = i.id;
          reason = unjoined_for (now -ℤ created);
          release = cfg.janitor_release && not (node_exists node_keys i);
        },
        rw (apart, alive, booted, known, parsed, over) refl,
        refl,
      )

  scan_instance-due :
      (i : Instance)
      → parse_time [] ≡ none
      → one_of i.id joined ≡ false
      → IsDue i
      → (a : JanitorAction) × (scan_instance parse_time now cfg joined node_keys i ≡ some a)
        × (a.instance_id ≡ i.id)
  scan_instance-due i unreadable apart (inl dead) = scan_dead i apart dead
  scan_instance-due i unreadable apart (inr (booted, created, parsed, late)) =
      elim (Bool-cases (dead_status i.status)) [
        | inl dead ↦ scan_dead i apart dead
        | inr alive ↦ elim (Bool-cases (is_empty i.creation_time)) [
          | inr known ↦
              scan_late i created apart alive ((str_eq_iff i.status (codes "Running")).1 booted)
                known parsed late
          | inl blank ↦
              (let e : i.creation_time ≡ [] = is_empty→eq i.creation_time blank in
                let p : parse_time [] ≡ some created = rw e at parsed in cc (p, unreadable))
        ]
      ]

  In-cons_some :
      (o : Option JanitorAction) (a : JanitorAction) (out : List JanitorAction)
      → (o ≡ some a) ⊎ In a out
      → In a (cons_some o out)
  In-cons_some none a out (inl e) = cc
  In-cons_some none a out (inr h) = h
  In-cons_some (some b) a out (inl e) = inl (cc)
  In-cons_some (some b) a out (inr h) = inr h

  -- Every owned instance that has not joined and is dead or past its join timeout is in the scan,
  -- whether or not a release is allowed, provided the empty text is no time.
  pub janitor_scan_complete :
      (owned : List Instance) (i : Instance)
      → parse_time [] ≡ none
      → In i owned
      → one_of i.id joined ≡ false
      → IsDue i
      → (a : JanitorAction) × In a (janitor_scan parse_time now cfg owned joined node_keys)
        × (a.instance_id ≡ i.id)
  unfolding janitor_scan
  janitor_scan_complete [] i unreadable h apart due = absurd h
  janitor_scan_complete (j ∷ owned) i unreadable (inl e) apart due =
      let (a, found, same) = scan_instance-due i unreadable apart due in
      let found' : scan_instance parse_time now cfg joined node_keys j ≡ some a = rw e at found in
      (
        a,
        In-cons_some (scan_instance parse_time now cfg joined node_keys j) a
            (janitor_scan parse_time now cfg owned joined node_keys) (inl found'),
        same,
      )
  janitor_scan_complete (j ∷ owned) i unreadable (inr h) apart due =
      let (a, m, same) = janitor_scan_complete owned i unreadable h apart due in
      (
        a,
        In-cons_some (scan_instance parse_time now cfg joined node_keys j) a
            (janitor_scan parse_time now cfg owned joined node_keys) (inr m),
        same,
      )
