-- ===== src/AgentClient/Schema.antt =====
-- Which statements `createTables` sends.
use watched_back.Base.{ℕ, String, ◌<>◌, ◌≡◌, refl, ◌⊎◌, inl, inr, Bool, true, false, [], All, arith}
use watched_back.World.{Event, Query, query, executed, stored, World, Env}
use watched_back.Monad.{run, ◌>>=◌, cases, my_exec}
use watched_back.Monad.Keeps.{
  Keeps, Allows, AllowsLog, keeps_rules, bind-Keeps, pure-Keeps, lift-Keeps, if-Keeps, cases-Keeps,
  fold_m-Keeps, my_exec-Keeps,
}
use watched_back.Json.{Jsoncpp}
use watched_back.DbTools.{grab, keep_conn, set_conn}
use watched_back.DbTools.Keeps.{Tolerates, with_connection-Keeps, counted-Keeps}
use watched_back.DbTools.Have.{have_table, table_has_column}
use watched_back.AgentClient.Naming.{text_assoc}
use watched_back.AgentClient.Tables.{
  create_text, column_type, create_column, create_table, add_column, is_skipped, define_table,
  create_tables,
}

-- A statement that creates a table of data, or adds a column to one.
abbrev pub IsSchema : Query → Type 0
IsSchema q =
    ((rest : String) × (q.template ≡ "create table d$" <> rest))
    ⊎ ((rest : String) × (q.template ≡ "alter table d$" <> rest))

abbrev pub IsSchemaEvent : Event → Type 0
IsSchemaEvent (executed q) = IsSchema q
IsSchemaEvent _ = Unit

pub record OnlySchema (w : World) : Type 0 where
  pub all : All IsSchemaEvent w.trace

log-OnlySchema : AllowsLog OnlySchema
log-OnlySchema = record { at = λ n from msg. record { at = λ w b. record { all = (tt, b.all) } } }

grab-OnlySchema : (this : ℕ) → Keeps OnlySchema (grab this)
unfolding grab ◌>>=◌ cases keep_conn set_conn
grab-OnlySchema this = record { at = λ e w b. record { all = ground (arith, b.all) } }

tolerates : Tolerates OnlySchema
tolerates = record { log = log-OnlySchema; grabs = grab-OnlySchema }

stored_allowed : (q : Query) → Allows OnlySchema (stored q)
stored_allowed q = record { at = λ w b. record { all = (tt, b.all) } }

schema_statement :
    (q : Query) (from msg : String) → IsSchema q → Keeps OnlySchema (my_exec q from msg)
schema_statement q from msg h =
    my_exec-Keeps q from msg log-OnlySchema (record { at = λ w b. record { all = (h, b.all) } })

create_text-IsSchema :
    (table : String) (has_flag : Bool) (columns : String)
    → IsSchema (query (create_text table has_flag columns) [])
create_text-IsSchema table true columns = inl (_, text_assoc "create table d$" _ _)
create_text-IsSchema table false columns = inl (_, text_assoc "create table d$" _ _)

module _ (J : Jsoncpp) (this : ℕ) where
  column_type-Keeps :
      (number integer : String) (property : J.Value)
      → Keeps OnlySchema (column_type J this number integer property)
  unfolding column_type
  column_type-Keeps number integer property = search (keeps_rules, log-OnlySchema) depth 9

  create_column-Keeps :
      (properties : J.Value) (t column : String)
      → Keeps OnlySchema (create_column J this properties t column)
  unfolding create_column
  create_column-Keeps properties t column = search (keeps_rules, column_type-Keeps) depth 9

  create_table-Keeps :
      (table : String) (has_flag : Bool) (properties : J.Value)
      → Keeps OnlySchema (create_table J this table has_flag properties)
  unfolding create_table
  create_table-Keeps table has_flag properties =
      bind-Keeps _ _ (fold_m-Keeps _ _ _ λ t column. create_column-Keeps properties t column)
        λ columns. schema_statement _ _ _ (create_text-IsSchema table has_flag columns)

  have_table-Keeps : (name : String) → Keeps OnlySchema (have_table this name)
  unfolding have_table
  have_table-Keeps name = counted-Keeps this _ _ _ tolerates (stored_allowed _)

  table_has_column-Keeps :
      (table column : String) → Keeps OnlySchema (table_has_column this table column)
  unfolding table_has_column
  table_has_column-Keeps table column = bind-Keeps _ _ (have_table-Keeps table) λ there.
      if-Keeps there _ _ (counted-Keeps this _ _ _ tolerates (stored_allowed _)) (pure-Keeps false)

  add_column-Keeps :
      (table : String) (properties : J.Value) (column : String)
      → Keeps OnlySchema (add_column J this table properties column)
  unfolding add_column
  add_column-Keeps table properties column =
      bind-Keeps _ _ (table_has_column-Keeps _ column) λ there. if-Keeps there _ _ (pure-Keeps tt) (
        bind-Keeps _ _ (lift-Keeps _) λ property.
          bind-Keeps _ _ (column_type-Keeps _ _ property) λ type.
            cases-Keeps type _ _ (pure-Keeps tt)
              λ t. schema_statement _ _ _ (inr (table <> (" add " <> (column <> t)), refl)))

  is_skipped-Keeps :
      (key : String) (i : J.Value) (has_flag : Bool)
      → Keeps OnlySchema (is_skipped J this key i has_flag)
  unfolding is_skipped
  is_skipped-Keeps key i has_flag = search keeps_rules

  define_table-Keeps :
      (definitions : J.Value) (key : String)
      → Keeps OnlySchema (define_table J this definitions key)
  unfolding define_table
  define_table-Keeps definitions key = bind-Keeps _ _ (lift-Keeps _) λ i.
      bind-Keeps _ _ (lift-Keeps _) λ has_flag.
        bind-Keeps _ _ (is_skipped-Keeps key i has_flag) λ skipped.
          if-Keeps skipped _ _ (pure-Keeps tt) (
            bind-Keeps _ _ (have_table-Keeps _) λ there. bind-Keeps _ _ (lift-Keeps _) λ properties.
              if-Keeps there _ _
                (fold_m-Keeps _ _ _ λ u column. add_column-Keeps key properties column)
                (create_table-Keeps key has_flag properties))

  create_tables-Keeps : (api : J.Value) → Keeps OnlySchema (create_tables J this api)
  unfolding create_tables
  create_tables-Keeps api = with_connection-Keeps this _ _ _ tolerates (
      bind-Keeps _ _ (lift-Keeps _)
        λ definitions. fold_m-Keeps _ _ _ λ u key. define_table-Keeps definitions key)

-- Whatever data an agent's API defines, and however the run ends: each statement that
-- `createTables` has the server execute begins with `create table d$` or `alter table d$`, if that
-- was so of the trace before.
pub create_tables-OnlySchema :
    (J : Jsoncpp) (this : ℕ) (api : J.Value) (e : Env) (w : World)
    → OnlySchema w
    → OnlySchema (run (create_tables J this api) e w).1
unfolding run
create_tables-OnlySchema J this api e w h = (create_tables-Keeps J this api).at e w h
