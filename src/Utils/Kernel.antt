-- ===== src/Utils/Kernel.antt =====
-- base/utils/cmdline.go: the options of the kernel's command line. The words of the line are those
-- that the package shlex splits the trimmed line into: `shlex` stands for both steps.
pub mod Options
use debug_bootstrap.Prelude.{
  Bool, true, false, Option, none, some, List, [], ◌∷◌, ◌++◌, Bytes, contains, split_two,
  bytes_equal, nat_equal, ◌==◌, if◌then◌else◌,
}
use debug_bootstrap.Prelude.Dict.{Dict, lookup, insert}

-- type KernelOptions
abbrev pub KernelOptions : Type 0
KernelOptions = Dict Bytes (List Bytes)

unfoldable pub is_option : KernelOptions → Bytes → Bool
is_option k key = elim (lookup key k) [ none ↦ false | some v ↦ true ]

unfoldable pub last_or_empty : List Bytes → Bytes
last_or_empty [] = []
last_or_empty (v ∷ []) = v
last_or_empty (v ∷ w ∷ vs) = last_or_empty (w ∷ vs)

-- GetLast
unfoldable pub get_last : KernelOptions → Dict Bytes Bytes
unfolding last_or_empty
get_last [] = []
get_last ((key, values) ∷ k) = (key, last_or_empty values) ∷ get_last k

-- options[key], nil where there is none
unfoldable pub values_or_nil : Option (List Bytes) → List Bytes
values_or_nil none = []
values_or_nil (some vs) = vs

unfoldable pub add_option : Bytes → Option Bytes → KernelOptions → KernelOptions
unfolding values_or_nil
add_option key none k = insert key [] k
add_option key (some v) k = insert key (values_or_nil (lookup key k) ++ v ∷ []) k

-- The loop of parseKernelOptions
unfoldable pub parse_words : List Bytes → KernelOptions → KernelOptions
unfolding add_option split_two
parse_words [] k = k
parse_words (option ∷ cmdline) k =
    let (key, value) = split_two b'=' option in parse_words cmdline (add_option key value k)

unfoldable pub parse_kernel_options : (Bytes → List Bytes) → Bytes → KernelOptions
unfolding parse_words
parse_kernel_options shlex content = parse_words (shlex content) []

-- What String shows of one option
unfoldable pub shown_values : Bytes → List Bytes → List Bytes
shown_values key [] = []
shown_values key ([] ∷ vs) = key ∷ shown_values key vs
shown_values key ((c ∷ v) ∷ vs) = (key ++ b'=' ∷ c ∷ v) ∷ shown_values key vs

unfoldable pub shown_option : Bytes → Option (List Bytes) → List Bytes
unfolding shown_values
shown_option key none = []
shown_option key (some []) = key ∷ []
shown_option key (some (v ∷ vs)) = shown_values key (v ∷ vs)

unfoldable pub shown : KernelOptions → List Bytes → List Bytes
unfolding shown_option
shown k [] = []
shown k (key ∷ keys) = shown_option key (lookup key k) ++ shown k keys

-- strings.Join
unfoldable pub join : Bytes → List Bytes → Bytes
join sep [] = []
join sep (s ∷ []) = s
join sep (s ∷ t ∷ ss) = s ++ sep ++ join sep (t ∷ ss)

-- KernelOptions.String
unfoldable pub show_options : KernelOptions → List Bytes → Bytes
unfolding shown join
show_options k keys = join (b',' ∷ b' ' ∷ []) (shown k keys)

-- strings.ContainsAny(v, " \t")
unfoldable pub has_blank : Bytes → Bool
has_blank [] = false
has_blank (c ∷ s) = if contains (b' ' ∷ b'\t' ∷ []) c then true else has_blank s

unfoldable pub quoted : Bytes → Bytes → Bytes
unfolding has_blank
quoted k v = if has_blank v then k ++ b'=' ∷ b'"' ∷ (v ++ b'"' ∷ []) else k ++ b'=' ∷ v

unfoldable pub arguments_of : Bytes → List Bytes → List Bytes
unfolding quoted
arguments_of k [] = []
arguments_of k (v ∷ vs) = quoted k v ∷ arguments_of k vs

-- The set `x` as the list of its members, and a member more
unfoldable pub add_member : Bytes → List Bytes → List Bytes
add_member o x = if contains x o then x else x ++ o ∷ []

unfoldable pub add_members : List Bytes → List Bytes → List Bytes
unfolding add_member
add_members [] x = x
add_members (o ∷ os) x = add_members os (add_member o x)

unfoldable pub members : KernelOptions → List Bytes → List Bytes
unfolding add_members arguments_of
members [] x = x
members ((key, []) ∷ k) x = members k (add_member key x)
members ((key, v ∷ vs) ∷ k) x = members k (add_members (arguments_of key (v ∷ vs)) x)

-- Cmdline; the members are written in some order.
unfoldable pub cmdline : KernelOptions → Bytes
unfolding members join
cmdline k = join (b' ' ∷ []) (members k [])
