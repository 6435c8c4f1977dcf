-- ===== src/PaymentOrders.antt =====
-- apps/backend/src/payment-orders: payment orders (mandamientos de pago).
pub mod Rules
mod Tests
