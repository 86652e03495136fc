-- ===== src/Alerter/Delivery.antt =====
-- One alert for each row of the alerting setup, in the order of the rows.
use watched_back.Base.{ℕ, ◌≡◌, refl, String, ◌<>◌, List, [], ◌∷◌, map, some, arith, if◌then◌else◌}
use watched_back.World.{Event, Query, alerted, logged, stored, returned, Row, World, Env, add_event}
use watched_back.Monad.{M, run, fold_m}
use watched_back.DbTools.{with_connection, grab}
use watched_back.Alerter.{
  knows, critical, send, send_row, send_rows, tell, services_query, of_service, send_service,
}

-- A row of the setup as mysql++ gives it: the alerter's name, and the destination.
abbrev pub as_row : String × String → Row
as_row (a, d) = a ∷ d ∷ []

-- mysql++ reads the two fields of such a row.
pub record ReadsSetup (e : Env) : Type 0 where
  pub alerter_field : (a d : String) → e.column (a ∷ d ∷ []) 0 ≡ returned a
  pub dest_field : (a d : String) → e.column (a ∷ d ∷ []) 1 ≡ returned d

-- What becomes of one row: an alert, or a warning where the alerter is not known.
abbrev pub told : List String → ℕ → String → String → String × String → Event
told known level title message (a, d) =
    if knows known a
    then alerted a level d title message
    else logged 2 "alerterManager::send"
        ("Alerter " <> (a <> (" NOT found to handle alert: " <> title)))

abbrev pub deliver : List String → ℕ → String → String → List (String × String) → World → World
deliver known level title message [] w = w
deliver known level title message (s ∷ ss) w =
    deliver known level title message ss (add_event w (told known level title message s))

module _ {e : Env} (reads : ReadsSetup e) (known : List String) (level : ℕ)
    (title message : String) where
  send_row-told :
      (s : String × String) (w : World)
      → run (send_row known level title message (as_row s)) e w
        ≡ (returned tt, add_event w (told known level title message s))
  unfolding run send_row send
  send_row-told (a, d) w = ground (arith, reads.alerter_field a d, reads.dest_field a d)

  rows_told :
      (ss : List (String × String)) (w : World)
      → run (fold_m (map as_row ss) tt λ _ row. send_row known level title message row) e w
        ≡ (returned tt, deliver known level title message ss w)
  unfolding run
  rows_told [] w = refl
  rows_told (s ∷ ss) w = rw (send_row-told s w) (rows_told ss _)

  -- `tell`, once its query has given the rows.
  tell_rows :
      (this c : ℕ) (from : String) (q : Query) (failed : String) (nobody : M String)
      (s : String × String) (ss : List (String × String)) (w v : World)
      → w.conn this ≡ some c
      → e.store w.trace q ≡ returned (some (map as_row (s ∷ ss)))
      → run
          (fold_m (map as_row (s ∷ ss)) tt λ _ row. send_row known level title message row)
          e
          (add_event w (stored q))
        ≡ (returned tt, v)
      → run (tell this known from q failed nobody level title message) e w ≡ (returned tt, v)
  unfolding run tell with_connection grab send_rows
  tell_rows this c from q failed nobody s ss w v h rows sent = ground arith

-- A connected manager that is told of a failed service, where the server's setup for the service
-- has the rows `s ∷ ss`: exactly one query is sent, and then for each row in turn one critical
-- alert with the message as its title and text, or a warning if the row's alerter is not known.
pub send_service-deliver :
    {e : Env} (this c : ℕ) (known : List String) (host_id serv_id : ℕ) (msg : String)
    (s : String × String) (ss : List (String × String)) (w : World)
    → ReadsSetup e
    → w.conn this ≡ some c
    → e.store w.trace (services_query serv_id) ≡ returned (some (map as_row (s ∷ ss)))
    → run (send_service this known host_id serv_id msg) e w ≡ (
      returned tt,
      deliver known critical msg msg (s ∷ ss) (add_event w (stored (services_query serv_id))),
    )
unfolding run send_service
send_service-deliver this c known host_id serv_id msg s ss w reads h rows =
    tell_rows reads known critical msg msg this c _ (services_query serv_id) _
      (of_service this host_id serv_id) s ss w _ h rows
      (rows_told reads known critical msg msg (s ∷ ss) _)
