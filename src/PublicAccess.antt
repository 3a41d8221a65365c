-- ===== src/PublicAccess.antt =====
-- The switch for anonymous reading, backend/internal/publicaccess/service.go with store.go. `F` stands
-- for what the file, or the row of PostgreSQL, may have, and `encode` and `decode` for the JSON of it.
-- The lock makes each call one step.
pub mod Cache
mod Tests
use komachi.Base.{
  Bool, true, false, Option, none, some, List, [], ◌∷◌, Result, ok, err, Exec, if◌then◌else◌,
}

pub record Service (F : Type 0) : Type 0 where
  pub enabled : Bool
  pub env_managed : Bool
  pub file : Option F

pub data AccessError : Type 0 where
  env_managed_error update_failed reload_failed : AccessError

-- How a save ends: it works, it fails and leaves what was stored, or it fails after the new value was
-- stored, as a statement of PostgreSQL may that reports an error after its commit.
pub data Saving : Type 0 where
  saved lost committed : Saving

-- A call of the service, with what the store meets: how the save ends, or whether the load fails. Or
-- another part of the program, such as a restore, replaces what is stored.
pub data Call (F : Type 0) : Type 0 where
  setting : Saving → Bool → Call F
  reloading : Bool → Call F
  replacing : Option F → Call F

abbrev pub new_env_managed : {F : Type 0} → Bool → Option F → Service F
new_env_managed enabled file = record { enabled = enabled; env_managed = true; file = file }

module _ {F : Type 0} (encode : Bool → F) (decode : F → Option Bool) where
  -- `store.Load`: a file that is missing says no; none where it cannot be read
  abbrev pub load : Bool → Option F → Option Bool
  load true file = none
  load false none = some false
  load false (some raw) = decode raw

  abbrev created : Option F → Option Bool → Option (Service F)
  created file none = none
  created file (some b) = some (record { enabled = b; env_managed = false; file = file })

  -- `NewSettingsManaged` and `NewPostgresSettingsManaged`
  unfoldable pub new_settings_managed : Bool → Option F → Option (Service F)
  new_settings_managed fails file = created file (load fails file)

  abbrev saving_enabled : Saving → Bool → Exec (Service F) AccessError (Unit {0})
  saving_enabled saved b s = (ok tt, record s { enabled = b; file = some (encode b) })
  saving_enabled lost b s = (err update_failed, s)
  saving_enabled committed b s = (err update_failed, record s { file = some (encode b) })

  unfoldable pub set_enabled : Saving → Bool → Exec (Service F) AccessError (Unit {0})
  set_enabled saving b s =
      if s.env_managed then (err env_managed_error, s) else saving_enabled saving b s

  abbrev cached : Service F → Option Bool → Result AccessError (Unit {0}) × Service F
  cached s none = (err reload_failed, s)
  cached s (some b) = (ok tt, record s { enabled = b })

  unfoldable pub reload : Bool → Exec (Service F) AccessError (Unit {0})
  reload fails s = if s.env_managed then (ok tt, s) else cached s (load fails s.file)

  unfoldable pub attempt : Call F → Exec (Service F) AccessError (Unit {0})
  unfolding set_enabled reload
  attempt (setting saving b) s = set_enabled saving b s
  attempt (reloading fails) s = reload fails s
  attempt (replacing file) s = (ok tt, record s { file = file })

  unfoldable pub perform_all : List (Call F) → Service F → Service F
  unfolding attempt
  perform_all [] s = s
  perform_all (c ∷ cs) s = perform_all cs (attempt c s).1
