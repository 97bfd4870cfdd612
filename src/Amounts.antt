-- ===== src/Amounts.antt =====
-- Token amounts as decimal text: backend/src/utils/fixedPoint.ts and backend/src/utils/amounts.ts.
-- A JavaScript string is the list of its code units, and a `bigint` is a ℤ.
pub mod Text
pub mod Digits
pub mod FixedPoint
pub mod Decimal
