-- ===== src/Symbols.antt =====
-- scheme14/scheme14.cpp, section 3: `make_symbol` and its table `g_symbols`, which holds the symbol of each
-- name. A key of the source's table is a view of the name that the symbol keeps, so an entry is an
-- address alone. The other modules have a symbol as its name.
pub mod Interning
use text.Mathlib.Text.{◌==◌ as str_eq}
use secd_scheme.Prelude.{
  Option, none, some, List, [], ◌∷◌, String, length, Addr, fetch, Bool, true, false,
}

-- The symbols that were made, by their addresses, and the table's entries.
pub record SymbolTable : Type 0 where
  pub names : List String
  pub entries : List Addr

abbrev pub has_name : String → Option String → Bool
has_name name none = false
has_name name (some other) = str_eq other name

-- g_symbols.find
unfoldable pub find_symbol : String → List String → List Addr → Option Addr
find_symbol name names [] = none
find_symbol name names (a ∷ entries) = elim (has_name name (fetch a names)) [
  | true ↦ some a
  | false ↦ find_symbol name names entries
]

abbrev pub or_new : Option Addr → String → SymbolTable → Addr × SymbolTable
or_new (some a) name t = (a, t)
or_new none name t =
    (length t.names, record { names = name ∷ t.names; entries = length t.names ∷ t.entries })

unfoldable pub make_symbol : String → SymbolTable → Addr × SymbolTable
unfolding find_symbol
make_symbol name t = or_new (find_symbol name t.names t.entries) name t

-- The symbols of the names, made one after the other.
unfoldable pub make_symbols : List String → SymbolTable → SymbolTable
unfolding make_symbol
make_symbols [] t = t
make_symbols (name ∷ names) t = make_symbols names ((make_symbol name t).1)
