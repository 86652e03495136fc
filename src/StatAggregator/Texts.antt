-- ===== src/StatAggregator/Texts.antt =====
-- The texts of the SQL that src/statAggregator.cpp puts together, for a data type `tbl` and the name
-- of its first column.
use watched_back.Base.{ℕ, String, ◌∷◌, [], joined, to_string, str_eq, if◌then◌else◌}
use watched_back.World.{Query, query}

-- `create_am`, which makes the table of the minutes, and its end.
abbrev pub create_am_head : String → String → String
create_am_head tbl id_name = joined (
    "create table am$" ∷ tbl ∷ " as select " ∷ id_name
    ∷ ", res_id, floor(timestamp/60000)*60000.0000 as timestamp " ∷ [])

abbrev pub create_am_tail : String → String → ℕ → String
create_am_tail tbl id_name delay = joined (
    "from d$"
    ∷ tbl
    ∷ " where floor(timestamp/60000)<floor(UNIX_TIMESTAMP(now())/60)-"
    ∷ to_string delay
    ∷ " group by "
    ∷ id_name
    ∷ ",res_id, floor(timestamp/60000)*60000.0000"
    ∷ [])

-- `base_am`, which adds to it, and its end.
abbrev pub base_am_head : String → String → String
base_am_head tbl id_name = joined (
    "insert into am$" ∷ tbl ∷ " select d." ∷ id_name
    ∷ ", d.res_id, floor(d.timestamp/60000)*60000.0000 as timestamp " ∷ [])

abbrev pub base_am_tail : String → String → ℕ → String
base_am_tail tbl id_name delay = joined (
    "from d$"
    ∷ tbl
    ∷ " d, (select u."
    ∷ id_name
    ∷ ", u.res_id, max(u.timestamp) as timestamp from (select x."
    ∷ id_name
    ∷ ", x.res_id, max(x.timestamp) as timestamp from am$"
    ∷ tbl
    ∷ " x group by x."
    ∷ id_name
    ∷ ", x.res_id union all select z."
    ∷ id_name
    ∷ ", z.res_id, 0.0000 as timestamp from d$"
    ∷ tbl
    ∷ " z group by z."
    ∷ id_name
    ∷ ", z.res_id) u group by u."
    ∷ id_name
    ∷ ", u.res_id) y where floor(d.timestamp/60000)<floor(UNIX_TIMESTAMP(now())/60)-"
    ∷ to_string delay
    ∷ " and floor(d.timestamp/60000)*60000>y.timestamp and d."
    ∷ id_name
    ∷ "=y."
    ∷ id_name
    ∷ " and d.res_id=y.res_id group by d."
    ∷ id_name
    ∷ ",d.res_id, floor(d.timestamp/60000)*60000.0000"
    ∷ [])

-- `create_ah`, which makes the table of the hours, and its end.
abbrev pub create_ah_head : String → String → String
create_ah_head tbl id_name = joined (
    "create table ah$" ∷ tbl ∷ " as select " ∷ id_name
    ∷ ", res_id, floor(timestamp/3600000)*3600000.0000 as timestamp " ∷ [])

abbrev pub create_ah_tail : String → String → ℕ → String
create_ah_tail tbl id_name delay = joined (
    "from am$"
    ∷ tbl
    ∷ " where floor(timestamp/3600000)<floor(UNIX_TIMESTAMP(now())/3600)-"
    ∷ to_string delay
    ∷ " group by "
    ∷ id_name
    ∷ ",res_id, floor(timestamp/3600000)*3600000.0000"
    ∷ [])

-- `base_ah`, which adds to it, and its end.
abbrev pub base_ah_head : String → String → String
base_ah_head tbl id_name = joined (
    "insert into ah$" ∷ tbl ∷ " select d." ∷ id_name
    ∷ ", d.res_id, floor(d.timestamp/3600000)*3600000.0000 as timestamp " ∷ [])

abbrev pub base_ah_tail : String → String → ℕ → String
base_ah_tail tbl id_name delay = joined (
    "from am$"
    ∷ tbl
    ∷ " d, (select u."
    ∷ id_name
    ∷ ", u.res_id, max(u.timestamp) as timestamp from (select x."
    ∷ id_name
    ∷ ", x.res_id, max(x.timestamp) as timestamp from ah$"
    ∷ tbl
    ∷ " x group by x."
    ∷ id_name
    ∷ ", x.res_id union all select z."
    ∷ id_name
    ∷ ", z.res_id, 0.0000 as timestamp from am$"
    ∷ tbl
    ∷ " z group by z."
    ∷ id_name
    ∷ ", z.res_id) u group by u."
    ∷ id_name
    ∷ ", u.res_id) y where floor(d.timestamp/3600000)<floor(UNIX_TIMESTAMP(now())/3600)-"
    ∷ to_string delay
    ∷ " and floor(d.timestamp/3600000)*3600000>y.timestamp and d."
    ∷ id_name
    ∷ "=y."
    ∷ id_name
    ∷ " and d.res_id=y.res_id group by d."
    ∷ id_name
    ∷ ",d.res_id, floor(d.timestamp/3600000)*3600000.0000"
    ∷ [])

-- `create_ad`, which makes the table of the days, and its end.
abbrev pub create_ad_head : String → String → String
create_ad_head tbl id_name = joined (
    "create table ad$" ∷ tbl ∷ " as select " ∷ id_name
    ∷ ", res_id, floor(timestamp/86400000)*86400000.0000 as timestamp " ∷ [])

abbrev pub create_ad_tail : String → String → ℕ → String
create_ad_tail tbl id_name delay = joined (
    "from ah$"
    ∷ tbl
    ∷ " where floor(timestamp/86400000)<floor(UNIX_TIMESTAMP(now())/3600)-"
    ∷ to_string delay
    ∷ " group by "
    ∷ id_name
    ∷ ",res_id, floor(timestamp/86400000)*86400000.0000"
    ∷ [])

-- `base_ad`, which adds to it, and its end.
abbrev pub base_ad_head : String → String → String
base_ad_head tbl id_name = joined (
    "insert into ad$" ∷ tbl ∷ " select d." ∷ id_name
    ∷ ", d.res_id, floor(d.timestamp/86400000)*86400000.0000 as timestamp " ∷ [])

abbrev pub base_ad_tail : String → String → ℕ → String
base_ad_tail tbl id_name delay = joined (
    "from ah$"
    ∷ tbl
    ∷ " d, (select u."
    ∷ id_name
    ∷ ", u.res_id, max(u.timestamp) as timestamp from (select x."
    ∷ id_name
    ∷ ", x.res_id, max(x.timestamp) as timestamp from ad$"
    ∷ tbl
    ∷ " x group by x."
    ∷ id_name
    ∷ ", x.res_id union all select z."
    ∷ id_name
    ∷ ", z.res_id, 0.0000 as timestamp from am$"
    ∷ tbl
    ∷ " z group by z."
    ∷ id_name
    ∷ ", z.res_id) u group by u."
    ∷ id_name
    ∷ ", u.res_id) y where floor(d.timestamp/86400000)<floor(UNIX_TIMESTAMP(now())/3600)-"
    ∷ to_string delay
    ∷ " and floor(d.timestamp/86400000)*86400000>y.timestamp and d."
    ∷ id_name
    ∷ "=y."
    ∷ id_name
    ∷ " and d.res_id=y.res_id group by d."
    ∷ id_name
    ∷ ",d.res_id, floor(d.timestamp/86400000)*86400000.0000"
    ∷ [])

-- `create_al`, the view of all.
abbrev pub create_al_head : String → String → String
create_al_head tbl id_name = joined (
    "create or replace view all$" ∷ tbl ∷ " as select ad.* from ad$" ∷ tbl
    ∷ " ad, (select min(timestamp) as mint, " ∷ id_name ∷ ", res_id from ah$" ∷ tbl ∷ " group by "
    ∷ id_name ∷ ", res_id) ah where ah." ∷ id_name ∷ " = ad." ∷ id_name
    ∷ " and ah.res_id  = ad.res_id and ad.timestamp > ah.mint union all select ah.* from ah$" ∷ tbl
    ∷ " ah, (select min(timestamp) as mint, " ∷ id_name ∷ ", res_id from am$" ∷ tbl ∷ " group by "
    ∷ id_name ∷ ", res_id) am where am." ∷ id_name ∷ " = ah." ∷ id_name
    ∷ " and am.res_id  = ah.res_id and ah.timestamp > am.mint union all select am.*  from am$" ∷ tbl
    ∷ " am, (select min(timestamp) as mint, " ∷ id_name ∷ ", res_id from d$" ∷ tbl ∷ " group by "
    ∷ id_name ∷ ", res_id) d where d." ∷ id_name ∷ " = am." ∷ id_name
    ∷ " and d.res_id  = am.res_id and am.timestamp > d.mint union all select " ∷ id_name
    ∷ ", res_id, timestamp " ∷ [])

-- What a column of the data adds to the minutes, to hours and days, and to the view.
abbrev pub colm : String → String
colm col = joined (
    ", avg(" ∷ col ∷ ") as avg_" ∷ col ∷ ", min(" ∷ col ∷ ") as min_" ∷ col ∷ ", max(" ∷ col
    ∷ ") as max_" ∷ col ∷ ", sum(" ∷ col ∷ ") as sum_" ∷ col ∷ ", count(" ∷ col ∷ ") as cnt_" ∷ col
    ∷ " " ∷ [])

abbrev pub colh : String → String
colh col = joined (
    ", sum(sum_" ∷ col ∷ ")/sum(cnt_" ∷ col ∷ ") as avg_" ∷ col ∷ ", min(min_" ∷ col ∷ ") as min_"
    ∷ col ∷ ", max(max_" ∷ col ∷ ") as max_" ∷ col ∷ ", sum(sum_" ∷ col ∷ ") as sum_" ∷ col
    ∷ ", sum(cnt_" ∷ col ∷ ") as cnt_" ∷ col ∷ " " ∷ [])

abbrev pub al_column : String → String
al_column col = joined (
    ", " ∷ col ∷ " as avg_" ∷ col ∷ ", " ∷ col ∷ " as min_" ∷ col ∷ ", " ∷ col ∷ " as max_" ∷ col
    ∷ ", " ∷ col ∷ " as sum_" ∷ col ∷ ", 1 as cnt_" ∷ col ∷ [])

-- The columns to aggregate.
abbrev pub columns_text : String → String → String
columns_text tbl id_name = joined (
    "select col.column_name from information_schema.columns col where col.TABLE_SCHEMA=DATABASE() and col.table_name = '"
    ∷ "d$" ∷ tbl ∷ "' and col.data_type in ('int', 'double') and column_name not in ('" ∷ id_name
    ∷ "', 'res_id', 'timestamp')" ∷ [])

-- The key, the index and the constraint of a new table; `prefix` is am, ah or ad.
abbrev pub primary_text : String → String → String → String
primary_text prefix tbl id_name = joined (
    "alter table " ∷ prefix ∷ "$" ∷ tbl ∷ " add constraint primary key (" ∷ id_name
    ∷ ", res_id, timestamp)" ∷ [])

abbrev pub index_text : String → String → String
index_text prefix tbl =
    joined
      ("create index " ∷ prefix ∷ "$" ∷ tbl ∷ "_res_i on " ∷ prefix ∷ "$" ∷ tbl ∷ "(res_id)" ∷ [])

abbrev pub constraint_text : String → String → String → String
constraint_text prefix tbl id_name =
    let references =
      if str_eq id_name "host_id"
      then ") references h$ressources("
      else ") references s$ressources(" in
    joined (
      "alter table " ∷ prefix ∷ "$" ∷ tbl ∷ " add constraint " ∷ prefix ∷ "$" ∷ tbl ∷ "_" ∷ id_name
      ∷ "_i foreign key (" ∷ id_name ∷ references ∷ id_name
      ∷ ") on delete cascade on update cascade" ∷ [])

abbrev pub configs_query : Query
configs_query =
    query
      "select data_type, delay_am, delay_ah, delay_ad, retention_d, retention_am, retention_ah, retention_ad from c$data_configs"
      []

-- Removes what is older than `retention` days.
abbrev pub purge_text : String → String → ℕ → String
purge_text prefix tbl retention = joined (
    "delete from "
    ∷ prefix
    ∷ "$"
    ∷ tbl
    ∷ " where timestamp<(floor(UNIX_TIMESTAMP(now())/"
    ∷ to_string 86400
    ∷ ")-"
    ∷ to_string retention
    ∷ ")*"
    ∷ to_string 86400000
    ∷ [])
