-- ===== src/Data/Contract.antt =====
-- The instruments of contract.go, common.go and scanner.go. A Go string is its bytes, and a struct
-- starts out with every field zero.
use ibapi.Common.{List, [], Bool, false, Option, none, Bytes, ℤ, pos, negsuc}
use ibapi.Wire.Float.{Floats}

-- A leg of a combination.
pub record ComboLeg : Type 0 where
  pub contract_id : ℤ
  pub ratio : ℤ
  pub action : Bytes
  pub exchange : Bytes
  pub open_close : ℤ
  pub short_sale_slot : ℤ
  pub designated_location : Bytes
  pub exempt_code : ℤ

pub record DeltaNeutralContract (F : Type 0) : Type 0 where
  pub contract_id : ℤ
  pub delta : F
  pub price : F

pub record Contract (F : Type 0) : Type 0 where
  pub contract_id : ℤ
  pub symbol : Bytes
  pub security_type : Bytes
  pub expiry : Bytes
  pub strike : F
  pub right : Bytes
  pub multiplier : Bytes
  pub exchange : Bytes
  pub currency : Bytes
  pub local_symbol : Bytes
  pub trading_class : Bytes
  pub primary_exchange : Bytes
  pub include_expired : Bool
  pub security_id_type : Bytes
  pub security_id : Bytes
  pub combo_legs_description : Bytes
  pub combo_legs : List ComboLeg
  pub delta_neutral_contract : Option (DeltaNeutralContract F)

-- The zero value of `Contract`.
abbrev pub zero_contract : {F : Type 0} ⦃fl : Floats F⦄ → Contract F
zero_contract ⦃fl⦄ = record {
  contract_id = pos 0;
  symbol = [];
  security_type = [];
  expiry = [];
  strike = fl.of_int (pos 0);
  right = [];
  multiplier = [];
  exchange = [];
  currency = [];
  local_symbol = [];
  trading_class = [];
  primary_exchange = [];
  include_expired = false;
  security_id_type = [];
  security_id = [];
  combo_legs_description = [];
  combo_legs = [];
  delta_neutral_contract = none;
}

pub record TagValue : Type 0 where
  pub tag : Bytes
  pub value : Bytes

pub record ContractDetails (F : Type 0) : Type 0 where
  pub contract : (Contract F)
  pub market_name : Bytes
  pub min_tick : F
  pub order_types : Bytes
  pub valid_exchanges : Bytes
  pub price_magnifier : ℤ
  pub under_contract_id : ℤ
  pub long_name : Bytes
  pub contract_month : Bytes
  pub industry : Bytes
  pub category : Bytes
  pub subcategory : Bytes
  pub timezone_id : Bytes
  pub trading_hours : Bytes
  pub liquid_hours : Bytes
  pub ev_rule : Bytes
  pub ev_multiplier : ℤ
  pub md_size_multiplier : ℤ
  pub agg_group : ℤ
  pub under_symbol : Bytes
  pub under_security_type : Bytes
  pub market_rule_ids : Bytes
  pub security_id_list : List TagValue
  pub real_expiration_date : Bytes
  pub last_trade_time : Bytes
  pub stock_type : Bytes
  pub cusip : Bytes
  pub ratings : Bytes
  pub desc_append : Bytes
  pub bond_type : Bytes
  pub coupon_type : Bytes
  pub callable : Bool
  pub putable : Bool
  pub coupon : ℤ
  pub convertible : Bool
  pub maturity : Bytes
  pub issue_date : Bytes
  pub next_option_date : Bytes
  pub next_option_type : Bytes
  pub next_option_partial : Bool
  pub notes : Bytes

-- The zero value of `ContractDetails`.
abbrev pub zero_contract_details : {F : Type 0} ⦃fl : Floats F⦄ → ContractDetails F
zero_contract_details ⦃fl⦄ = record {
  contract = zero_contract;
  market_name = [];
  min_tick = fl.of_int (pos 0);
  order_types = [];
  valid_exchanges = [];
  price_magnifier = pos 0;
  under_contract_id = pos 0;
  long_name = [];
  contract_month = [];
  industry = [];
  category = [];
  subcategory = [];
  timezone_id = [];
  trading_hours = [];
  liquid_hours = [];
  ev_rule = [];
  ev_multiplier = pos 0;
  md_size_multiplier = pos 0;
  agg_group = pos 0;
  under_symbol = [];
  under_security_type = [];
  market_rule_ids = [];
  security_id_list = [];
  real_expiration_date = [];
  last_trade_time = [];
  stock_type = [];
  cusip = [];
  ratings = [];
  desc_append = [];
  bond_type = [];
  coupon_type = [];
  callable = false;
  putable = false;
  coupon = pos 0;
  convertible = false;
  maturity = [];
  issue_date = [];
  next_option_date = [];
  next_option_type = [];
  next_option_partial = false;
  notes = [];
}

pub record ContractDescription (F : Type 0) : Type 0 where
  pub contract : (Contract F)
  pub derivative_sec_types : List Bytes

-- `NewComboLeg`.
unfoldable pub new_combo_leg : ComboLeg
new_combo_leg = record {
  contract_id = pos 0;
  ratio = pos 0;
  action = [];
  exchange = [];
  open_close = pos 0;
  short_sale_slot = pos 0;
  designated_location = [];
  exempt_code = negsuc 0;
}
