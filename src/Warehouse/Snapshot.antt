-- ===== src/Warehouse/Snapshot.antt =====
-- `snapshot_query` of sql.py and `BigQueryWarehouse.snapshot` of bigquery.py: what a writer reads
-- before it plans a batch. QUALIFY ROW_NUMBER() = 1 keeps one row of a key with the highest ordinal;
-- of equal ordinals, which a consistent table does not hold, this model keeps the first.
use power_market_data_platfo.Base.{
  has_repeats, ℕ, Bool, true, ◌&&◌, ◌||◌, not, List, [], ◌∷◌, map, Option, none, some, ltb, ◌==◌,
  if◌then◌else◌, any, filter, Text, text_eq, Result, ok, err, ◌>>=◌, ◌>>◌, raise_if, is_some,
}
use power_market_data_platfo.Errors.{Error, warehouse}
use power_market_data_platfo.Warehouse.Request.{
  Product, key_schema, content_schema, warehouse_schema,
}
use power_market_data_platfo.Warehouse.Tables.{Content, Transition, Control, Database}
use power_market_data_platfo.Warehouse.Plan.{Latest, Snapshot}
use power_market_data_platfo.Warehouse.Scripts.{facts, is_singleton}

abbrev pub supersedes : ℕ → Option Latest → Bool
supersedes n none = true
supersedes n (some l) = ltb l.ordinal n

-- The row of highest ordinal among the transitions of one key and date; `best` is the best so far.
abbrev pub latest_from : ℕ → Text → Option Latest → List Transition → Option Latest
latest_from day key best [] = best
latest_from day key best (t ∷ ts) =
    latest_from day key
      (if (t.market_date == day) && text_eq t.logical_key key && supersedes t.ordinal best
        then some (record { content_hash = t.content_hash; ordinal = t.ordinal })
        else best)
      ts

abbrev pub ids_on : ℕ → List Content → List Text
ids_on day cs = map (λ s. s.content_id) (filter (λ s. s.market_date == day) cs)

abbrev other_schemas : Content → Bool
other_schemas s =
    not (text_eq s.logical_key_schema key_schema)
    || not (text_eq s.content_hash_schema content_schema)

abbrev the_row : List Control → Result Error Control
the_row (c ∷ []) = ok c
the_row cs = err warehouse

-- `BigQueryWarehouse.snapshot`, on what the query returns.
unfoldable pub snapshot : Product → ℕ → Database → Result Error Snapshot
snapshot product day db = do
  c ← the_row (filter is_singleton db.warehouse_control)
  raise_if (not (text_eq c.warehouse_schema warehouse_schema)) warehouse
  raise_if (is_some c.active_run_id) warehouse
  let f = facts product db
  raise_if (any other_schemas (filter (λ s. s.market_date == day) f.contents)) warehouse
  raise_if (has_repeats (ids_on day f.contents)) warehouse
  ok (record {
    sequence = c.sequence;
    contents = ids_on day f.contents;
    latest = λ key. latest_from day key none f.transitions;
  })
