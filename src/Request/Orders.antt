-- ===== src/Request/Orders.antt =====
-- Requests of `IbClient` (client.go): the requests about orders that carry no order.
use ibapi.Common.{[], ◌∷◌, Bool, ℤ, pos}
use ibapi.Wire.Encode.{int, bool}
use ibapi.Request.{Request, send}

module _ {F : Type 0} where
  -- `CancelOrder`.
  unfoldable pub cancel_order : ℤ → Request F
  cancel_order order_id = send (int (pos 4) ∷ int (pos 1) ∷ int order_id ∷ [])

  -- `ReqOpenOrders`.
  unfoldable pub req_open_orders : Request F
  req_open_orders = send (int (pos 5) ∷ int (pos 1) ∷ [])

  -- `ReqAutoOpenOrders`.
  unfoldable pub req_auto_open_orders : Bool → Request F
  req_auto_open_orders auto_bind = send (int (pos 15) ∷ int (pos 1) ∷ bool auto_bind ∷ [])

  -- `ReqAllOpenOrders`.
  unfoldable pub req_all_open_orders : Request F
  req_all_open_orders = send (int (pos 16) ∷ int (pos 1) ∷ [])

  -- `ReqGlobalCancel`.
  unfoldable pub req_global_cancel : Request F
  req_global_cancel = send (int (pos 58) ∷ int (pos 1) ∷ [])

  -- `ReqIDs`.
  unfoldable pub req_ids : Request F
  req_ids = send (int (pos 8) ∷ int (pos 1) ∷ int (pos 0) ∷ [])

  -- `ReqCompletedOrders`.
  unfoldable pub req_completed_orders : Bool → Request F
  req_completed_orders api_only = send (int (pos 99) ∷ bool api_only ∷ [])
