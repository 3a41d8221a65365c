-- ===== src/PublicAccess/Tests.antt =====
-- A switch that is turned on by a save whose answer is lost, a restore and a reload.
use komachi.Base.{◌≡◌, refl, Bool, true, false, Option, none, some, List, [], ◌∷◌}
use komachi.PublicAccess.{
  Service, saved, lost, committed, Call, setting, reloading, replacing, load, new_settings_managed,
  attempt, perform_all,
}
use komachi.PublicAccess.Cache.{enabled-perform_all}

abbrev encode : Bool → Bool
encode b = b

abbrev decode : Bool → Option Bool
decode b = some b

abbrev earlier : List (Call Bool)
earlier = setting saved true ∷ setting committed false ∷ replacing (some true) ∷ []

abbrev later : List (Call Bool)
later = setting saved false ∷ setting lost true ∷ reloading true ∷ []

abbrev off : Service Bool
off = record { enabled = false; env_managed = false; file = none }

-- Until the service reloads, it answers with the flag of before the restore.
out_of_step : (perform_all encode decode (replacing (some true) ∷ []) off).enabled ≡ false
unfolding perform_all
out_of_step = refl

reloaded :
    (perform_all encode decode (replacing (some true) ∷ reloading false ∷ []) off).enabled ≡ true
unfolding perform_all
reloaded = refl

enabled-perform_all_example :
    load encode decode false
      (perform_all encode decode later
        (attempt encode decode (reloading false) (perform_all encode decode earlier off)).1).file
    ≡ some
        (perform_all encode decode later
          (attempt encode decode
            (reloading false)
            (perform_all encode decode earlier off)).1).enabled
unfolding new_settings_managed perform_all attempt
enabled-perform_all_example =
    enabled-perform_all encode decode (λ b. refl) false none off earlier later (reloading false)
      refl refl refl refl
