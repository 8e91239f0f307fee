-- ===== src/Php.antt =====
-- The PHP values that the wire format carries, as far as the development goes: a zval without
-- objects. A zend_array is packed (values only) or a list of buckets in insertion order. A PHP
-- reference is its place in a store of cells, and an array that several zvals share is its id.
use phpser.Base.{ℕ, List, [], ◌∷◌}

-- A bucket's key: an integer (a 64-bit pattern) or a string.
pub data Key : Type 0 where
  int : ℕ → Key
  str : List ℕ → Key

-- A double is its 64-bit pattern. `empty_array` is zend_empty_array, which has no reference count.
mutual
  pub data Value : Type 0 where
    undef null false true : Value
    long double : ℕ → Value
    str : List ℕ → Value
    packed : Items → Value
    hash : Buckets → Value
    empty_array : Value
    ref shared : ℕ → Value

  pub data Items : Type 0 where
    nil : Items
    item : Value → Items → Items

  pub data Buckets : Type 0 where
    end : Buckets
    bucket : Key → Value → Buckets → Buckets

unfoldable pub items : List Value → Items
items [] = nil
items (v ∷ vs) = item v (items vs)
