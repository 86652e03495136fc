-- ===== src/AgentClient/Tables.antt =====
-- `agentClient::createTables` of src/agentClient.cpp: a table for each kind of data that the
-- agent's API defines, and the columns that it lacks.
use watched_back.Base.{
  ℕ, String, ◌<>◌, Bool, not, Option, none, some, [], str_eq, if◌then◌else◌, take_text,
}
use watched_back.World.{query}
use watched_back.Monad.{M, pure, lift, ◌>>=◌, ◌>>◌, cases, fold_m, my_exec, warning}
use watched_back.Json.{Jsoncpp}
use watched_back.Json.Read.{string_at}
use watched_back.DbTools.{with_connection}
use watched_back.DbTools.Have.{have_table, table_has_column}

abbrev foreign_key : String → String → String → String
foreign_key table id_name typed =
    ", constraint fk_"
    <> (table
        <> ("_ressources foreign key("
            <> (id_name
                <> (", res_id) references "
                    <> (typed
                        <> ("ressources("
                            <> (id_name <> ", res_id) on delete cascade on update cascade")))))))

-- The columns that every table has.
abbrev table_head : String → String → String
table_head table id_name =
    "create table d$"
    <> (table
        <> ("(\n\t"
            <> (id_name
                <> "\tint(32) unsigned,\n\tres_id\t\tint(32) unsigned,\n\ttimestamp\tdouble(20,4) unsigned,\n")))

abbrev table_foot : String → String → String → String
table_foot table pk fk =
    "\tconstraint "
    <> (table <> ("_pk primary key (" <> (pk <> (",res_id,timestamp)\n" <> (fk <> "\n)\n")))))

-- The text of `create table`, with what its columns are.
abbrev pub create_text : String → Bool → String → String
create_text table has_flag columns =
    if has_flag
    then table_head table "serv_id"
      <> (columns <> table_foot table "serv_id" (foreign_key table "serv_id" "s$"))
    else table_head table "host_id"
      <> (columns <> table_foot table "host_id" (foreign_key table "host_id" "h$"))

abbrev pub alter_text : String → String → String → String
alter_text table column type = "alter table d$" <> (table <> (" add " <> (column <> type)))

module _ (J : Jsoncpp) (this : ℕ) where
  -- The type of a column, chosen by the property's `type`; `none`, with a warning, for any other.
  unfoldable pub column_type : String → String → J.Value → M (Option String)
  column_type number integer property = do
    type ← lift (J.at property "type")
    if J.equals type "number"
        then pure (some number)
        else if J.equals type "integer"
        then pure (some integer)
        else (do
          name ← string_at J property "type"
          warning "agentClient::createTables" ("Unknown datatype : " <> name)
          pure none)

  unfoldable pub create_column : J.Value → String → String → M String
  create_column properties text column = if str_eq column "timestamp" then pure text else (do
    property ← lift (J.at properties column)
    type ← column_type "\t\tdouble(20,4),\n" "\t\tinteger(32),\n" property
    cases type (pure text) (λ t. pure (text <> ("\t" <> (column <> t)))))

  unfoldable pub create_table : String → Bool → J.Value → M (Unit {0})
  create_table table has_flag properties = do
    columns ← fold_m (J.keys properties) "" (create_column properties)
    my_exec (query (create_text table has_flag columns) []) "agentClient::createTables"
        ("Failed to create data table: d$" <> table)

  unfoldable pub add_column : String → J.Value → String → M (Unit {0})
  add_column table properties column = do
    there ← table_has_column this ("d$" <> table) column
    if there then pure tt else (do
      property ← lift (J.at properties column)
      type ← column_type " double(20,4)" " integer(32)" property
      cases type (pure tt) (λ t.
          my_exec (query (alter_text table column t) []) "agentClient::createTables"
            "Failed to add a column to a data table"))

  -- Whether a definition is skipped: the core tables, and the definitions of services.
  unfoldable pub is_skipped : String → J.Value → Bool → M Bool
  is_skipped key i has_flag =
      if has_flag
      then (do
        flag ← lift (J.at i "x-isService")
        is_service ← lift (J.as_bool flag)
        pure (not is_service))
      else pure (str_eq (take_text 7 key) "service")

  unfoldable pub define_table : J.Value → String → M (Unit {0})
  define_table definitions key = do
    i ← lift (J.at definitions key)
    has_flag ← lift (J.is_member i "x-isService")
    skipped ← is_skipped key i has_flag
    if skipped then pure tt else (do
      there ← have_table this ("d$" <> key)
      properties ← lift (J.at i "properties")
      if there
          then fold_m (J.keys properties) tt (λ _ column. add_column key properties column)
          else create_table key has_flag properties)

  -- `agentClient::createTables`
  unfoldable pub create_tables : J.Value → M (Unit {0})
  create_tables api = with_connection this "agentClient::createTables" tt (do
    definitions ← lift (J.at api "definitions")
    fold_m (J.keys definitions) tt λ _ key. define_table definitions key)
