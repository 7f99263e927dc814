-- ===== src/Data/Scanner.antt =====
-- The subscription of a market scanner (scanner.go).
use ibapi.Common.{[], false, Bool, Bytes, ℤ, negsuc}
use ibapi.Wire.Float.{Floats}
use ibapi.Wire.Encode.{unset_int}

-- `ScannerSubscription`.
pub record ScannerSubscription (F : Type 0) : Type 0 where
  pub number_of_rows : ℤ
  pub instrument : Bytes
  pub location_code : Bytes
  pub scan_code : Bytes
  pub above_price : F
  pub below_price : F
  pub above_volume : ℤ
  pub market_cap_above : F
  pub market_cap_below : F
  pub moody_rating_above : Bytes
  pub moody_rating_below : Bytes
  pub sp_rating_above : Bytes
  pub sp_rating_below : Bytes
  pub maturity_date_above : Bytes
  pub maturity_date_below : Bytes
  pub coupon_rate_above : F
  pub coupon_rate_below : F
  pub exclude_convertible : Bool
  pub average_option_volume_above : ℤ
  pub scanner_setting_pairs : Bytes
  pub stock_type_filter : Bytes

-- `NewScannerSubscription`.
unfoldable pub new_scanner_subscription : {F : Type 0} ⦃fl : Floats F⦄ → ScannerSubscription F
new_scanner_subscription ⦃fl⦄ = record {
  number_of_rows = negsuc 0;
  instrument = [];
  location_code = [];
  scan_code = [];
  above_price = fl.unset_float;
  below_price = fl.unset_float;
  above_volume = unset_int;
  market_cap_above = fl.unset_float;
  market_cap_below = fl.unset_float;
  moody_rating_above = [];
  moody_rating_below = [];
  sp_rating_above = [];
  sp_rating_below = [];
  maturity_date_above = [];
  maturity_date_below = [];
  coupon_rate_above = fl.unset_float;
  coupon_rate_below = fl.unset_float;
  exclude_convertible = false;
  average_option_volume_above = unset_int;
  scanner_setting_pairs = [];
  stock_type_filter = [];
}
