-- ===== src/Rebuild/Months.antt =====
-- What a rebuild (sylo/indexer/rebuild.py) makes of the database of a month.
use sylo.Base.{
  ℕ, ◌+◌, ◌≡◌, refl, ap, ◌∙◌, inl, inr, Bool-cases, Bool, true, false, not, List, [], ◌∷◌, ◌++◌,
  Option, none, some, if◌then◌else◌, if_elim,
}
use sylo.Text.{Bytes, Text, text_eq, text_eq_iff}
use sylo.Schema.{Row, MonthDb, empty_db}
use sylo.Dict.{Dict, get, set, pop, get-set, get-pop, text_eq_refl}
use sylo.DeviceWriter.{member}
use sylo.Rebuild.{rebuild_file}
use sylo.Indexer.{or_empty_db}
use sylo.Rebuild.Index.{
  Rebuilding, month_key_of, sort_named, device_dirs, logs_of, or_zero, is_targeted, open_month,
  connect_month, commit_month, rebuild_month_log, rebuild_log, rebuild_logs, rebuild_devices,
}

-- The logs of a month, each with the name of its directory, in the order of the walk.
abbrev pub in_month : Text → Text × Bytes → Bool
in_month key log = text_eq (month_key_of log.0) key

unfoldable pub logs_in : Text → Text → List (Text × Bytes) → List (Text × Bytes)
logs_in key source_ip [] = []
logs_in key source_ip (log ∷ logs) =
    let rest = logs_in key source_ip logs in
    if in_month key log then (source_ip, log.1) ∷ rest else rest

unfoldable pub dirs_logs : Text → Dict (List (Text × Bytes)) → List (Text × Bytes)
dirs_logs key [] = []
dirs_logs key ((source_ip, files) ∷ dirs) =
    logs_in key source_ip (logs_of files) ++ dirs_logs key dirs

unfoldable pub month_logs : Text → List (Text × Option (List (Text × Bytes))) → List (Text × Bytes)
month_logs key data_dir = dirs_logs key (sort_named (device_dirs data_dir))

abbrev pub or_new : Option (MonthDb × ℕ) → MonthDb × ℕ
or_new none = (empty_db, 0)
or_new (some made) = made

abbrev pub add_count : ℕ → MonthDb × ℕ → MonthDb × ℕ
add_count n (db, inserted) = (db, n + inserted)

get-pop_self {ℓ} : {V : Type ℓ} (key : Text) (d : Dict V) → get key (pop key d) ≡ none
get-pop_self key d = get-pop key key d ∙ rw (text_eq_refl key)

-- Another key.
get-set_other {ℓ} :
    {V : Type ℓ} (key k : Text) (v : V) (d : Dict V)
    → text_eq k key ≡ false
    → get key (set k v d) ≡ get key d
get-set_other key k v d h = get-set key k v d ∙ rw h

get-pop_other {ℓ} :
    {V : Type ℓ} (key k : Text) (d : Dict V) → text_eq k key ≡ false → get key (pop k d) ≡ get key d
get-pop_other key k d h = get-pop key k d ∙ rw h

module _ (accepts : Row → Bool) where
  -- One log more, from an empty database for the first.
  abbrev pub add_log : Option (MonthDb × ℕ) → Text × Bytes → MonthDb × ℕ
  add_log made (source_ip, log_file) =
      add_count (or_new made).1 (rebuild_file accepts (or_new made).0 log_file source_ip)

  unfoldable pub remade : Option (MonthDb × ℕ) → List (Text × Bytes) → Option (MonthDb × ℕ)
  remade made [] = made
  remade made (log ∷ logs) = remade (some (add_log made log)) logs

  remade-append :
      (made : Option (MonthDb × ℕ)) (xs ys : List (Text × Bytes))
      → remade made (xs ++ ys) ≡ remade (remade made xs) ys
  unfolding remade
  remade-append made [] ys = refl
  remade-append made (x ∷ xs) ys = remade-append (some (add_log made x)) xs ys

  -- What the state of a rebuild has for a month: nothing yet, or what is made.
  module _ (index : Dict MonthDb) (key : Text) where
    abbrev pub Holds : Option (MonthDb × ℕ) → Rebuilding → Type 0
    Holds none s =
        (member key s.connections ≡ false)
        × (member key s.rebuilt_months ≡ false)
        × (get key s.index ≡ get key index)
        × (get key s.counts ≡ none)
    Holds (some (db, n)) s =
        (member key s.connections ≡ true)
        × (get key s.index ≡ some db)
        × (get key s.counts ≡ some n)

    -- With a connection and a database, a log is added.
    commit_month-Holds :
        (s : Rebuilding) (db : MonthDb) (n : ℕ) (source_ip : Text) (log_file : Bytes)
        → member key s.connections ≡ true
        → get key s.index ≡ some db
        → or_zero (get key s.counts) ≡ n
        → Holds (some (add_count n (rebuild_file accepts db log_file source_ip))) (
            commit_month key s
              (rebuild_file accepts (or_empty_db (get key s.index)) log_file source_ip))
    commit_month-Holds s db n source_ip log_file h k l = (
      h,
      get-set key key _ s.index
          ∙ rw (text_eq_refl key)
              (ap (λ o. some (rebuild_file accepts (or_empty_db o) log_file source_ip).0) k),
      get-set key key _ s.counts
          ∙ rw (text_eq_refl key) (
              ap
                (λ o. some (
                  or_zero (get key s.counts)
                  + (rebuild_file accepts (or_empty_db o) log_file source_ip).1))
                k
              ∙ ap (λ m. some (m + (rebuild_file accepts db log_file source_ip).1)) l),
    )

    IsOpened : Rebuilding → Type 0
    IsOpened s =
        (member key s.connections ≡ true)
        × (get key s.index ≡ some empty_db)
        × (get key s.counts ≡ none)

    open_month-IsOpened : (s : Rebuilding) → Holds none s → IsOpened (open_month key s)
    unfolding IsOpened open_month member
    open_month-IsOpened s h = rw (text_eq_refl key) (
        rw h.1 (
          refl,
          get-set key key _ (pop key s.index)
              ∙ rw (text_eq_refl key) (ap (λ o. some (or_empty_db o)) (get-pop_self key s.index)),
          h.3,
        ))

    rebuild_month_log-Holds :
        (made : Option (MonthDb × ℕ)) (s : Rebuilding) (log : Text × Bytes)
        → Holds made s
        → Holds (some (add_log made log)) (rebuild_month_log accepts log.0 key log.1 s)
    unfolding rebuild_month_log IsOpened
    rebuild_month_log-Holds none s (source_ip, f) h =
        let (conn, db, count) = open_month-IsOpened s h in
        rw h.0
          (commit_month-Holds (open_month key s) empty_db 0 source_ip f conn db (ap or_zero count))
    rebuild_month_log-Holds (some (db, n)) s (source_ip, f) h =
        rw h.0 (commit_month-Holds s db n source_ip f h.0 h.1 (ap or_zero h.2))

    -- Only the databases, counts and connections of the month itself matter.
    abbrev pub Agrees : Rebuilding → Rebuilding → Type 0
    Agrees s t =
        (member key t.connections ≡ member key s.connections)
        × (member key t.rebuilt_months ≡ member key s.rebuilt_months)
        × (get key t.index ≡ get key s.index)
        × (get key t.counts ≡ get key s.counts)

    pub Holds-Agrees :
        (made : Option (MonthDb × ℕ)) (s t : Rebuilding) → Agrees s t → Holds made s → Holds made t
    Holds-Agrees none s t a h = (a.0 ∙ h.0, a.1 ∙ h.1, a.2 ∙ h.2, a.3 ∙ h.3)
    Holds-Agrees (some (db, n)) s t a h = (a.0 ∙ h.0, a.2 ∙ h.1, a.3 ∙ h.2)

    open_month-Agrees :
        (k : Text) (s : Rebuilding) → text_eq k key ≡ false → Agrees s (open_month k s)
    unfolding open_month member
    open_month-Agrees k s h =
        (rw h, rw h, get-set_other key k _ _ h ∙ by_flag (member k s.rebuilt_months), refl)
      where
        by_flag :
            (known : Bool)
            → get key (if not known then pop k s.index else s.index) ≡ get key s.index
        by_flag true = refl
        by_flag false = get-pop_other key k s.index h

    pub rebuild_month_log-Agrees :
        (k source_ip : Text) (f : Bytes) (s : Rebuilding)
        → text_eq k key ≡ false
        → Agrees s (rebuild_month_log accepts source_ip k f s)
    unfolding rebuild_month_log
    rebuild_month_log-Agrees k source_ip f s h = (
      opened.0,
      opened.1,
      get-set_other key k _ (connect_month k s).index h ∙ opened.2,
      get-set_other key k _ (connect_month k s).counts h ∙ opened.3,
    )
      where
        opened : Agrees s (connect_month k s)
        opened =
            if_elim (Agrees s) (member k s.connections) (refl, refl, refl, refl)
              (open_month-Agrees k s h)

    -- A targeted month: its logs are added in the order of the walk.
    module _ (months : Option (List Text)) (targeted : is_targeted months key ≡ true) where
      rebuild_log-Holds :
          (made : Option (MonthDb × ℕ)) (s : Rebuilding) (source_ip : Text) (log : Text × Bytes)
          → Holds made s
          → Holds
              (if in_month key log then some (add_log made (source_ip, log.1)) else made)
              (rebuild_log accepts months source_ip s log)
      unfolding rebuild_log
      rebuild_log-Holds made s source_ip (name, f) h = elim (Bool-cases (in_month key (name, f))) [
        | inl same ↦
            let e : month_key_of name ≡ key = (text_eq_iff (month_key_of name) key).0 same in
            rw same (rw e (rw targeted (rebuild_month_log-Holds made s (source_ip, f) h)))
        | inr other ↦ rw other (
            if_elim (Holds made) (not (is_targeted months (month_key_of name))) h (
              Holds-Agrees made s _
                (rebuild_month_log-Agrees (month_key_of name) source_ip f s other) h))
      ]

      rebuild_logs-Holds :
          (logs : List (Text × Bytes)) (made : Option (MonthDb × ℕ)) (s : Rebuilding)
          (source_ip : Text)
          → Holds made s
          → Holds
              (remade made (logs_in key source_ip logs))
              (rebuild_logs accepts months source_ip s logs)
      unfolding rebuild_logs logs_in remade
      rebuild_logs-Holds [] made s source_ip h = h
      rebuild_logs-Holds (log ∷ logs) made s source_ip h = elim (Bool-cases (in_month key log)) [
        | inl same ↦
            let h' = rw same at (rebuild_log-Holds made s source_ip log h) in
            rw same (
              rebuild_logs-Holds logs (some (add_log made (source_ip, log.1)))
                (rebuild_log accepts months source_ip s log) source_ip h')
        | inr other ↦
            let h' = rw other at (rebuild_log-Holds made s source_ip log h) in
            rw other (
              rebuild_logs-Holds logs made (rebuild_log accepts months source_ip s log) source_ip
                h')
      ]

      pub rebuild_devices-Holds :
          (dirs : Dict (List (Text × Bytes))) (made : Option (MonthDb × ℕ)) (s : Rebuilding)
          → Holds made s
          → Holds (remade made (dirs_logs key dirs)) (rebuild_devices accepts months s dirs)
      unfolding rebuild_devices dirs_logs remade
      rebuild_devices-Holds [] made s h = h
      rebuild_devices-Holds ((ip, files) ∷ dirs) made s h =
          rw (remade-append made (logs_in key ip (logs_of files)) (dirs_logs key dirs)) (
            rebuild_devices-Holds dirs (remade made (logs_in key ip (logs_of files)))
              (rebuild_logs accepts months ip s (logs_of files))
              (rebuild_logs-Holds (logs_of files) made s ip h))
