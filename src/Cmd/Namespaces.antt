-- ===== src/Cmd/Namespaces.antt =====
-- cmd/main.go: the namespaces that the cache is limited to.
use redkey_operator.Common.{
  String, ◌==◌, ◌<>◌, Bool, true, false, ◌||◌, none, some, List, [], ◌∷◌, map, ◌≡◌, refl, sym, ap,
  ◌∙◌, if◌then◌else◌, String-cases, inl, inr, All, arith, eq_refl,
}
use text.Mathlib.TextLemmas.{cons-ne-nil}
use redkey_operator.Common.GoMap.{GoMap, nil, made, lookup, find, insert, find-insert}
use redkey_operator.Common.Text.{trim_space, split}
use redkey_operator.Common.Text.Laws.{
  blank, solid, lacks, join, trim_space-nil, split-nil, trim_space-padded, split-join, lacks-padded,
  blank-lacks,
}
use redkey_operator.Cmd.Flags.{Flags}

-- `cache.Options`, with the empty `cache.Config` of each namespace.
pub record CacheOptions : Type 0 where
  pub default_namespaces : GoMap (Unit {0})

-- The loop over the parts of the flag, with the entries so far.
add_namespaces : List String → List (String × Unit {0}) → List (String × Unit {0})
unfolding trim_space insert
add_namespaces [] entries = entries
add_namespaces (part ∷ parts) entries =
    let ns = trim_space part in
    add_namespaces parts (if ns == "" then entries else insert ns tt entries)

-- `cacheOpts`: no limit without the flag.
unfoldable pub cache_options : Flags → CacheOptions
unfolding split add_namespaces
cache_options flags =
    if flags.watch_namespaces == "" then record { default_namespaces = nil } else record {
      default_namespaces = made (add_namespaces (split flags.watch_namespaces b',') []);
    }

-- A namespace as it may stand in the flag: with white space before and after it.
pub record Field : Type 0 where
  pub before : String
  pub name : String
  pub after : String

abbrev pub written : Field → String
written f = f.before <> (f.name <> f.after)

-- The padding is white space; the name is not empty and has neither white space nor a comma.
abbrev pub Proper : Field → Type 0
Proper f =
    (blank f.before ≡ true)
    × (solid f.name ≡ true)
    × (lacks b',' f.name ≡ true)
    × (blank f.after ≡ true)

abbrev pub names_one : String → List Field → Bool
names_one ns [] = false
names_one ns (f ∷ fs) = (ns == f.name) || names_one ns fs

trim_space-written : (f : Field) → Proper f → trim_space (written f) ≡ f.name
trim_space-written f (b, s, l, a) = trim_space-padded f.before f.name f.after b s a

head_eq : {A : Type 0} {x y : A} {xs ys : List A} → ◌≡◌ {A = List A} (x ∷ xs) (y ∷ ys) → x ≡ y
head_eq h = cc

solid-ne-empty : (s : String) → solid s ≡ true → (s == "") ≡ false
solid-ne-empty String.[] h = absurd (cc)
solid-ne-empty (String.◌∷◌ c s) h = elim (String-cases (String.◌∷◌ c s) "") [
  | inl e ↦ absurd (cons-ne-nil c s e.1)
  | inr e ↦ e.0
]

find-add_namespaces :
    (ns : String) (fs : List Field) (entries : List (String × Unit {0}))
    → All Proper fs
    → find ns (add_namespaces (map written fs) entries)
      ≡ (if names_one ns fs then some tt else find ns entries)
unfolding add_namespaces
find-add_namespaces ns [] entries h = refl
find-add_namespaces ns (f ∷ fs) entries h =
    one (trim_space (written f)) f.name (trim_space-written f h.0) (solid-ne-empty f.name h.0.1)
    ∙ find-add_namespaces ns fs (insert f.name tt entries) h.1
    ∙ rw (find-insert f.name ns tt entries) (ground arith)
  where
    one :
        (found name : String)
        → found ≡ name
        → (name == "") ≡ false
        → find ns (
            add_namespaces
              (map written fs)
              (if found == "" then entries else insert found tt entries))
          ≡ find ns (add_namespaces (map written fs) (insert name tt entries))
    one found name e ne = rw (e, ne) refl

All-lacks : (fs : List Field) → All Proper fs → All (λ s. lacks b',' s ≡ true) (map written fs)
All-lacks [] h = tt
All-lacks (f ∷ fs) h =
    let (b, s, l, a) = h.0 in
    (
      lacks-padded b',' f.before f.name f.after (blank-lacks f.before b) l (blank-lacks f.after a),
      All-lacks fs h.1,
    )

join-ne-empty :
    (f : Field) (fs : List Field)
    → All Proper (f ∷ fs)
    → (join "," (map written (f ∷ fs)) == "") ≡ false
join-ne-empty f fs h = elim (String-cases (join "," (map written (f ∷ fs))) "") [
  | inl e ↦ absurd (
      contradiction (join "," (map written (f ∷ fs))) e.1
        (split-join "," (written f) (map written fs) (All-lacks (f ∷ fs) h)))
  | inr e ↦ e.0
]
  where
    contradiction : (s : String) → s ≡ "" → split s b',' ≡ written f ∷ map written fs → ⊥
    contradiction s e parts =
        let empty : "" ≡ written f =
          head_eq (sym (split-nil b',') ∙ (sym (ap (λ t. split t b',') e) ∙ parts)) in
        let name_empty : "" ≡ f.name =
          sym trim_space-nil ∙ (ap trim_space empty ∙ trim_space-written f h.0) in
        ground (arith, sym (ap (λ t. t == "") name_empty) ∙ eq_refl "", solid-ne-empty f.name h.0.1)

-- A flag that lists one namespace or more, each not empty and without white space or comma, separated
-- by commas and with any white space around each, limits the cache to exactly the namespaces listed.
pub lookup-cache_options :
    (flags : Flags) (f : Field) (fs : List Field) (ns : String)
    → All Proper (f ∷ fs)
    → flags.watch_namespaces ≡ join "," (map written (f ∷ fs))
    → lookup ns (cache_options flags).default_namespaces
      ≡ (if names_one ns (f ∷ fs) then some tt else none)
unfolding cache_options
lookup-cache_options flags f fs ns h e =
    rw (e, join-ne-empty f fs h, split-join "," (written f) (map written fs) (All-lacks (f ∷ fs) h))
      (find-add_namespaces ns (f ∷ fs) [] h)
