-- ===== src/Proto/Message/Stored.antt =====
-- What the result of DecodeProto holds under each name once all values are stored.
use mathlib.Core.Path.{subst}
use esphome_mpubsub.Base.{◌≡◌, ◌≢◌, refl, ap, ◌∙◌, sym, arith, true, false}
use esphome_mpubsub.Base.{
  List, [], ◌∷◌, ◌++◌, Bytes, All, Option, none, some, append_assoc, append-nil, =ᵇ_iff,
}
use esphome_mpubsub.Base.Maps.{bytes_eq, lookup, lookup-insert, beq_refl}
use esphome_mpubsub.Schema.{SchemaField}
use esphome_mpubsub.Proto.Value.{Scalar, Any, one, many}
use esphome_mpubsub.Proto.Decode.{store, list_of}
use esphome_mpubsub.Proto.Message.{each_entry, entries_of, entries, kept}
use esphome_mpubsub.Proto.Message.Decoding.{store_all}

-- Whether a name is the name of no field.
abbrev pub IsFresh : Bytes → List SchemaField → Type 0
IsFresh name fs = All (λ f. f.name ≢ name) fs

abbrev pub IsDistinct : List SchemaField → Type 0
IsDistinct [] = Unit {0}
IsDistinct (f ∷ fs) = IsFresh f.name fs × IsDistinct fs

-- A repeated field has a list, and any other one value.
abbrev pub IsShaped : SchemaField → Option Any → Type 0
IsShaped f none = Unit {0}
IsShaped f (some (one sc)) = f.repeated ≡ false
IsShaped f (some (many xs)) = f.repeated ≡ true

abbrev pub Out : Type 0
Out = List (Bytes × Any)

pub lookup-store_other :
    (f : SchemaField) (sc : Scalar) (out : Out) (name : Bytes)
    → f.name ≢ name
    → lookup name (store f sc out) ≡ lookup name out
unfolding store
lookup-store_other f sc out name ne = ground (
  arith,
  lookup-insert out f.name name (one sc),
  lookup-insert out f.name name (many (list_of (lookup f.name out) ++ sc ∷ [])),
  =ᵇ_iff f.name name,
)

pub lookup-store_one :
    (f : SchemaField) (sc : Scalar) (out : Out)
    → f.repeated ≡ false
    → lookup f.name (store f sc out) ≡ some (one sc)
unfolding store
lookup-store_one f sc out flat =
    rw (store, flat) (lookup-insert out f.name f.name (one sc) ∙ rw (beq_refl f.name) refl)

pub lookup-store_many :
    (f : SchemaField) (sc : Scalar) (out : Out)
    → f.repeated ≡ true
    → lookup f.name (store f sc out) ≡ some (many (list_of (lookup f.name out) ++ sc ∷ []))
unfolding store
lookup-store_many f sc out rep =
    rw (store, rep)
      (lookup-insert out f.name f.name (many (list_of (lookup f.name out) ++ sc ∷ []))
        ∙ rw (beq_refl f.name) refl)

pub store_all-append :
    (us bs : List (SchemaField × Scalar)) (out : Out)
    → store_all (us ++ bs) out ≡ store_all bs (store_all us out)
store_all-append [] bs out = refl
store_all-append ((f, sc) ∷ us) bs out = store_all-append us bs (store f sc out)

lookup-each_other :
    (f : SchemaField) (xs : List Scalar) (out : Out) (name : Bytes)
    → f.name ≢ name
    → lookup name (store_all (each_entry f xs) out) ≡ lookup name out
lookup-each_other f [] out name ne = refl
lookup-each_other f (x ∷ xs) out name ne =
    lookup-each_other f xs (store f x out) name ne ∙ lookup-store_other f x out name ne

lookup-entries_of_other :
    (f : SchemaField) (v : Option Any) (out : Out) (name : Bytes)
    → f.name ≢ name
    → lookup name (store_all (entries_of f v) out) ≡ lookup name out
lookup-entries_of_other f none out name ne = refl
lookup-entries_of_other f (some (one sc)) out name ne = lookup-store_other f sc out name ne
lookup-entries_of_other f (some (many xs)) out name ne = lookup-each_other f xs out name ne

-- A name of no field keeps what it had.
pub lookup-entries_fresh :
    (fs : List SchemaField) (val : SchemaField → Option Any) (out : Out) (name : Bytes)
    → IsFresh name fs
    → lookup name (store_all (entries fs val) out) ≡ lookup name out
lookup-entries_fresh [] val out name h = refl
lookup-entries_fresh (f ∷ fs) val out name (ne, h) =
    let here = entries_of f (val f) in
    ap (lookup name) (store_all-append here (entries fs val) out)
    ∙ lookup-entries_fresh fs val (store_all here out) name h
    ∙ lookup-entries_of_other f (val f) out name ne

-- The elements of a list gather behind those that are there.
lookup-each :
    (f : SchemaField) (xs acc : List Scalar) (out : Out)
    → f.repeated ≡ true
    → lookup f.name out ≡ some (many acc)
    → lookup f.name (store_all (each_entry f xs) out) ≡ some (many (acc ++ xs))
lookup-each f [] acc out rep e = e ∙ ap (λ (t : List Scalar). some (many t)) (sym (append-nil acc))
lookup-each f (x ∷ xs) acc out rep e =
    lookup-each f xs (acc ++ x ∷ []) (store f x out) rep
      (lookup-store_many f x out rep ∙ ap (λ (o : Option Any). some (many (list_of o ++ x ∷ []))) e)
    ∙ ap (λ (t : List Scalar). some (many t)) (append_assoc acc (x ∷ []) xs)

lookup-entries_of :
    (f : SchemaField) (v : Option Any) (out : Out)
    → IsShaped f v
    → lookup f.name out ≡ none
    → lookup f.name (store_all (entries_of f v) out) ≡ kept v
lookup-entries_of f none out n e = e
lookup-entries_of f (some (one sc)) out flat e = lookup-store_one f sc out flat
lookup-entries_of f (some (many [])) out n e = e
lookup-entries_of f (some (many (x ∷ xs))) out rep e =
    lookup-each f xs (x ∷ []) (store f x out) rep
      (lookup-store_many f x out rep ∙ ap (λ (o : Option Any). some (many (list_of o ++ x ∷ []))) e)

fresh_after :
    (f : SchemaField) (v : Option Any) (fs : List SchemaField) (out : Out)
    → IsFresh f.name fs
    → All (λ g. lookup g.name out ≡ none) fs
    → All (λ g. lookup g.name (store_all (entries_of f v) out) ≡ none) fs
fresh_after f v [] out h e = tt
fresh_after f v (g ∷ fs) out (ne, h) (e, es) = (
  lookup-entries_of_other f v out g.name (λ (p : f.name ≡ g.name). ne (sym p)) ∙ e,
  fresh_after f v fs out h es,
)

-- Each field of a schema holds its value.
pub lookup-entries :
    (fs : List SchemaField) (val : SchemaField → Option Any) (out : Out)
    → IsDistinct fs
    → All (λ f. IsShaped f (val f)) fs
    → All (λ f. lookup f.name out ≡ none) fs
    → All (λ f. lookup f.name (store_all (entries fs val) out) ≡ kept (val f)) fs
lookup-entries [] val out d n e = tt
lookup-entries (f ∷ fs) val out (fresh, d) (n, ns) (e, es) =
    let here = entries_of f (val f) in
    (
      ap (lookup f.name) (store_all-append here (entries fs val) out)
          ∙ lookup-entries_fresh fs val (store_all here out) f.name fresh
          ∙ lookup-entries_of f (val f) out n e,
      subst (λ (m : Out). All (λ g. lookup g.name m ≡ kept (val g)) fs)
          (sym (store_all-append here (entries fs val) out))
          (lookup-entries fs val (store_all here out) d ns (fresh_after f (val f) fs out fresh es)),
    )
