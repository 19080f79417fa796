-- ===== src/Errors.antt =====
-- errors.py and the error classes derived from it elsewhere: one constructor for each class that the
-- code raises or tells apart, and one for all others. Message texts are left out.
use power_market_data_platfo.Base.{Text}

pub data Error : Type 0 where
  unsupported_request : Error  -- UnsupportedRequestError
  upstream_request : Error  -- UpstreamRequestError
  schema : Error  -- SchemaError
  validation : Error  -- ValidationError
  warehouse : Error  -- WarehouseError
  commit_unconfirmed : Error  -- CommitUnconfirmed
  optimization : Error  -- OptimizationError
  retryable_ingestion : Error  -- RetryableIngestionError
  value_error : Error  -- Python's own ValueError
  unhandled : Text → Error  -- an exception of any other class, by the name of the class
