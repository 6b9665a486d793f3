-- ===== src/ObjectFile.antt =====
-- What the third-party crate `object` answers about an ELF file: its sections and symbols, as data.
use golang_profiling.Base.{ℕ, Bool, Option, List}
use golang_profiling.Base.Bytes.{Bytes}

-- `contents` is `none` where `section.data()` is an error.
pub record Section : Type 0 where
  pub address : ℕ
  pub size : ℕ
  pub contents : Option Bytes

-- `name` is `none` where `symbol.name()` is an error; `is_text` tells `SymbolKind::Text`.
pub record ObjectSymbol : Type 0 where
  pub name : Option Bytes
  pub is_text : Bool
  pub address : ℕ
  pub size : ℕ

pub record ObjectFile : Type 0 where
  pub section_by_name : Bytes → Option Section
  pub sections : List Section
  pub symbols : List ObjectSymbol
