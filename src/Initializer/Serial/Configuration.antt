-- ===== src/Initializer/Serial/Configuration.antt =====
-- The initializers and closers of serial lines of src/initializer_closer_lib.c keep what the
-- configuration says of the interfaces.
use mathlib.Core.Path.{ap₂}
use mathlib.Core.Option.{some-injective, none-ne-some}
use monitor_node.Prelude.{
  ℕ, zero, suc, ◌≡◌, refl, sym, ap, ◌∙◌, ℤ, pos, negsuc, ltb_ℤ, error, Str, strcmp_eq, Bool, true,
  false, Option, none, some, List, [], ◌∷◌, map, get_elem?, if◌then◌else◌, Yields, Yields-bind,
  Yields-then, Yields-if, inl, inr, Option-cases,
}
use monitor_node.InfoManager.{Manager, InterfaceInfo}
use monitor_node.InfoManager.Interfaces.{
  index_from, get_interface_index, interface_at, get_initialized_flag_by_index, get_temporary_fd,
}
use monitor_node.InfoManager.Interfaces.Parameters.{
  get_rs485_baud_rate_by_index, get_databits_by_index, get_stopbits_by_index,
  get_paritybits_by_index, get_rs485_dev_path_by_index,
}
use monitor_node.Rs485.Port.{SerialPortParams, open_port}
use monitor_node.Initializer.Common.{
  Host, Effect, port_opened, closed_fd, Outcome, mark_all, marked,
}
use monitor_node.Initializer.Serial.{
  on_path, with_fd, rs485_initializer_normal, rs485_closer_normal,
}
use monitor_node.Initializer.Serial.Refines.{params_of}

-- What the configuration says of an interface.
pub record Configured : Type 0 where
  pub name : Str
  pub type_ : Str
  pub path : Option Str
  pub params : SerialPortParams

abbrev pub configured : InterfaceInfo → Configured
configured f = record {
  name = f.interface_name;
  type_ = f.interface_type;
  path = f.rs485_info.rs485_dev_path;
  params = params_of f;
}

abbrev pub configuration : Manager → List Configured
configuration m = map configured m.interface_info_array

configured-with_fd :
    (b : Bool) (flag fd : ℤ) (f : InterfaceInfo)
    → configured (if b then with_fd flag fd f else f) ≡ configured f
configured-with_fd true flag fd f = refl
configured-with_fd false flag fd f = refl

mark_all-configured :
    (on_device : InterfaceInfo → Option Bool) (flag fd : ℤ) (fs : List InterfaceInfo)
    → Yields (λ gs. map configured gs ≡ map configured fs) (mark_all on_device (with_fd flag fd) fs)
unfolding mark_all
mark_all-configured on_device flag fd [] = refl
mark_all-configured on_device flag fd (f ∷ fs) = Yields-bind _ (on_device f) _ (λ b.
    Yields-then (λ gs. map configured gs ≡ map configured fs) _
      (mark_all on_device (with_fd flag fd) fs) _ (mark_all-configured on_device flag fd fs)
      (λ gs e. ap₂ (λ x y. x ∷ y) (configured-with_fd b flag fd f) e))

-- A call keeps the configuration.
abbrev pub Keeps : Manager → Outcome → Type 0
Keeps m o = configuration o.manager ≡ configuration m

marked-Keeps :
    (on_device : InterfaceInfo → Option Bool) (flag fd : ℤ) (m : Manager) (es : List Effect)
    → Yields (Keeps m) (marked on_device (with_fd flag fd) m es)
marked-Keeps on_device flag fd m es =
    Yields-then (λ gs. map configured gs ≡ configuration m) _
      (mark_all on_device (with_fd flag fd) m.interface_info_array) _
      (mark_all-configured on_device flag fd m.interface_info_array) (λ gs e. e)

pub initializer-Keeps :
    (h : Host) (m : Manager) (name : Str) → Yields (Keeps m) (rs485_initializer_normal h m name)
unfolding rs485_initializer_normal
initializer-Keeps h m name =
    let i = get_interface_index m name in
    Yields-bind _ (get_initialized_flag_by_index m i) _ (λ flag.
      Yields-if _ (ltb_ℤ (pos 0) flag) _ _ refl (
        Yields-bind _ (get_rs485_baud_rate_by_index m i) _ (λ baudrate.
          Yields-bind _ (get_databits_by_index m i) _ (λ databits.
            Yields-bind _ (get_stopbits_by_index m i) _ (λ stopbits.
              Yields-bind _ (get_paritybits_by_index m i) _ (λ paritybits.
                Yields-bind _ (get_rs485_dev_path_by_index m i) _ (λ path.
                  let o = open_port h.tty path record {
                    baudrate = baudrate;
                    databits = databits;
                    stopbits = stopbits;
                    paritybits = paritybits;
                  } in
                  Yields-if _ (ltb_ℤ o.code (pos 0)) _ _ refl
                    (marked-Keeps (on_path path) (pos 1) o.code m (port_opened o ∷ [])))))))))

pub closer-Keeps : (m : Manager) (name : Str) → Yields (Keeps m) (rs485_closer_normal m name)
unfolding rs485_closer_normal
closer-Keeps m name =
    let i = get_interface_index m name in
    Yields-bind _ (get_initialized_flag_by_index m i) _ (λ flag.
      Yields-if _ (ltb_ℤ flag (pos 0)) _ _ refl (
        Yields-bind _ (get_temporary_fd m i) _ (λ fd.
          Yields-bind _ (get_rs485_dev_path_by_index m i) _
            (λ path. marked-Keeps (on_path path) (negsuc 0) (negsuc 0) m (closed_fd fd ∷ [])))))

-- The index and the entry of a name are those of the configuration.
index_configured : ℕ → Str → List Configured → ℤ
index_configured i name [] = error
index_configured i name (c ∷ cs) =
    let rest = index_configured (suc i) name cs in if strcmp_eq c.name name then pos i else rest

index_from-configured :
    (i : ℕ) (name : Str) (fs : List InterfaceInfo)
    → index_from i name fs ≡ index_configured i name (map configured fs)
unfolding index_from index_configured
index_from-configured i name [] = refl
index_from-configured i name (f ∷ fs) = rw (index_from-configured (suc i) name fs)

pub get_interface_index-Keeps :
    (m m1 : Manager) (name : Str)
    → configuration m1 ≡ configuration m
    → get_interface_index m1 name ≡ get_interface_index m name
unfolding get_interface_index
get_interface_index-Keeps m m1 name e =
    index_from-configured 0 name m1.interface_info_array
    ∙ ap (index_configured 0 name) e
    ∙ sym (index_from-configured 0 name m.interface_info_array)

abbrev map_option : {A B : Type 0} → (A → B) → Option A → Option B
map_option g none = none
map_option g (some a) = some (g a)

get_elem?-map :
    {A B : Type 0} (g : A → B) (xs : List A) (i : ℕ)
    → get_elem? (map g xs) i ≡ map_option g (get_elem? xs i)
get_elem?-map g [] zero = refl
get_elem?-map g [] (suc i) = refl
get_elem?-map g (x ∷ xs) zero = refl
get_elem?-map g (x ∷ xs) (suc i) = get_elem?-map g xs i

pub same_entry :
    (fs gs : List InterfaceInfo) (i : ℕ) (f : InterfaceInfo)
    → map configured gs ≡ map configured fs
    → get_elem? fs i ≡ some f
    → (g : InterfaceInfo) × (get_elem? gs i ≡ some g) × (configured g ≡ configured f)
same_entry fs gs i f e a =
    let q : map_option configured (get_elem? gs i) ≡ some (configured f) =
      sym (get_elem?-map configured gs i)
      ∙ ap (λ t. get_elem? t i) e
      ∙ get_elem?-map configured fs i
      ∙ ap (map_option configured) a in
    elim (Option-cases (get_elem? gs i)) [
      | inl n ↦ absurd (none-ne-some (configured f) (sym (ap (map_option configured) n) ∙ q))
      | inr (g, b) ↦ (g, b, some-injective _ _ (sym (ap (map_option configured) b) ∙ q))
    ]

pub interface_at-Keeps :
    (m m1 : Manager) (i : ℤ) (f : InterfaceInfo)
    → configuration m1 ≡ configuration m
    → interface_at m i ≡ some f
    → (g : InterfaceInfo) × (interface_at m1 i ≡ some g) × (configured g ≡ configured f)
interface_at-Keeps m m1 (pos i) f e a =
    same_entry m.interface_info_array m1.interface_info_array i f e a
interface_at-Keeps m m1 (negsuc i) f e a = cc
