-- ===== src/DbTools/Name.antt =====
-- The lookups of a name by its id, in src/dbTools.cpp.
use watched_back.Base.{ℕ, String, ◌<>◌, [], ◌∷◌, to_string, if◌then◌else◌}
use watched_back.World.{query, uint, undefined}
use watched_back.Monad.{M, lift, error, ◌>>=◌, ◌>>◌}
use watched_back.DbTools.{grab, with_connection, found_name}

-- `dbTools::getRessourceName`. Here a failed `grab` is answered by `return 0;` too.
unfoldable pub get_ressource_name : ℕ → ℕ → M String
get_ressource_name this res = do
  got ← grab this
  if got
      then found_name (query "select name from c$ressources where id=%0:id" (("id", uint res) ∷ []))
          "dbTools::getRessourceName" ("Failed to get name for " <> to_string res)
      else (do
        error "dbTools::getRessourceName" "Failed to get a connection from the pool!"
        lift undefined)

-- `dbTools::getServiceName`
unfoldable pub get_service_name : ℕ → ℕ → ℕ → M String
get_service_name this host_id service = with_connection this "dbTools::getServiceName" "" (
    found_name
      (query "select name from s$services where host_id=%0:hid and id=%1:sid"
        (("hid", uint host_id) ∷ ("sid", uint service) ∷ []))
      "dbTools::getServiceName" ("Failed to get name for " <> to_string service))

-- `dbTools::getHostName`
unfoldable pub get_host_name : ℕ → ℕ → M String
get_host_name this host_id = with_connection this "dbTools::getHostName" "" (
    found_name (query "select name from h$hosts where id=%0:id" (("id", uint host_id) ∷ []))
      "dbTools::getHostName" ("Failed to get name for " <> to_string host_id))
