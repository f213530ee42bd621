-- ===== src/Virtual/Layout.antt =====
-- How a host reads the descriptors of a virtual device, in components/usbipdcpp/usbipdcpp/src/
-- virtual_device/VirtualDeviceHandler.cpp.
use esp32_usb_ip.Prelude.{
  ℕ, ◌+◌, ◌*◌, ◌%◌, ◌^◌, ◌≤◌, ◌≡◌, refl, sym, ap, inl, inr, ltb, ltb_false→le, Bool-cases, Option,
  none, some, List, [], ◌∷◌, ◌++◌, append_assoc, length, length-append, concat, get_or, take,
  take-long, arith,
}
use esp32_usb_ip.Prelude.Bytes.{All}
use esp32_usb_ip.Device.{Endpoint, Interface}
use esp32_usb_ip.Virtual.{InterfaceHandler, VirtualDevice}
use esp32_usb_ip.Virtual.Descriptors.{
  cut, low_byte, endpoint_descriptor, endpoint_descriptors, interface_descriptor, prefixed,
  interface_descriptors, with_total, configuration_header, configuration_of,
  get_configuration_descriptor,
}

-- A 16-bit field at an index of a descriptor, low byte first.
unfoldable pub word : List ℕ → ℕ → ℕ
word d i = get_or d i 0 + 2 ^ 8 * get_or d (i + 1) 0

-- A descriptor as a host walks over it: its first byte is its length.
unfoldable pub IsBlock : List ℕ → Type 0
IsBlock b = (2 ≤ length b) × (get_or b 0 0 ≡ length b)

-- Bytes that are such descriptors, one behind the other.
unfoldable pub AreBlocks : List ℕ → Type 0
AreBlocks xs = (bs : List (List ℕ)) × (xs ≡ concat bs) × All IsBlock bs

pub AreBlocks-cons : (b xs : List ℕ) → IsBlock b → AreBlocks xs → AreBlocks (b ++ xs)
unfolding AreBlocks
AreBlocks-cons b xs block (bs, e, all) = (b ∷ bs, ap (λ ys. b ++ ys) e, (block, all))

append_blocks :
    (bs : List (List ℕ)) (ys : List ℕ) → All IsBlock bs → AreBlocks ys → AreBlocks (concat bs ++ ys)
append_blocks [] ys all blocks = blocks
append_blocks (b ∷ bs) ys (block, all) blocks =
    rw append_assoc (AreBlocks-cons b (concat bs ++ ys) block (append_blocks bs ys all blocks))

AreBlocks-append : (xs ys : List ℕ) → AreBlocks xs → AreBlocks ys → AreBlocks (xs ++ ys)
unfolding AreBlocks
AreBlocks-append xs ys (bs, e, all) blocks = rw e (append_blocks bs ys all blocks)

endpoint_descriptors-AreBlocks : (es : List Endpoint) → AreBlocks (endpoint_descriptors es)
unfolding AreBlocks endpoint_descriptors IsBlock endpoint_descriptor
endpoint_descriptors-AreBlocks [] = ([], refl, tt)
endpoint_descriptors-AreBlocks (e ∷ es) =
    AreBlocks-cons (endpoint_descriptor e) (endpoint_descriptors es) (omega arith, refl)
      (endpoint_descriptors-AreBlocks es)

length-endpoint_descriptors :
    (es : List Endpoint) → length (endpoint_descriptors es) ≡ 7 * length es
unfolding endpoint_descriptors endpoint_descriptor
length-endpoint_descriptors [] = refl
length-endpoint_descriptors (e ∷ es) = omega (arith, length-endpoint_descriptors es)

-- Every interface has its handler, whose own descriptors are well formed.
unfoldable pub HaveHandlers :
    {S : Type 0} → List Interface → List (Option (InterfaceHandler S)) → Type 0
HaveHandlers [] handlers = Unit {0}
HaveHandlers (intf ∷ intfs) [] = ⊥
HaveHandlers (intf ∷ intfs) (none ∷ handlers) = ⊥
HaveHandlers (intf ∷ intfs) (some h ∷ handlers) =
    AreBlocks h.class_specific_descriptor × HaveHandlers intfs handlers

-- What the interfaces take: 9 bytes each, 7 for every endpoint, and the handlers' own.
unfoldable pub interfaces_length :
    {S : Type 0} → List Interface → List (Option (InterfaceHandler S)) → ℕ
interfaces_length [] handlers = 0
interfaces_length (intf ∷ intfs) [] = 0
interfaces_length (intf ∷ intfs) (none ∷ handlers) = 0
interfaces_length (intf ∷ intfs) (some h ∷ handlers) =
    9
    + length h.class_specific_descriptor
    + 7 * length intf.endpoints
    + interfaces_length intfs handlers

interface_descriptor-AreBlocks :
    {S : Type 0} (i : ℕ) (intf : Interface) (h : InterfaceHandler S)
    → AreBlocks h.class_specific_descriptor
    → AreBlocks (interface_descriptor i intf h)
unfolding interface_descriptor IsBlock
interface_descriptor-AreBlocks i intf h own =
    AreBlocks-cons
      (9
        ∷ 4
        ∷ low_byte i
        ∷ 0
        ∷ low_byte (length intf.endpoints)
        ∷ intf.interface_class
        ∷ intf.interface_subclass
        ∷ intf.interface_protocol
        ∷ h.string_interface_value
        ∷ [])
      (h.class_specific_descriptor ++ endpoint_descriptors intf.endpoints) (omega arith, refl)
      (AreBlocks-append h.class_specific_descriptor (endpoint_descriptors intf.endpoints) own
        (endpoint_descriptors-AreBlocks intf.endpoints))

length-interface_descriptor :
    {S : Type 0} (i : ℕ) (intf : Interface) (h : InterfaceHandler S)
    → length (interface_descriptor i intf h)
      ≡ 9 + length h.class_specific_descriptor + 7 * length intf.endpoints
unfolding interface_descriptor
length-interface_descriptor i intf h = omega (
  arith,
  length-append h.class_specific_descriptor (endpoint_descriptors intf.endpoints),
  length-endpoint_descriptors intf.endpoints,
)

-- The loop over the interfaces.
Described :
    {S : Type 0} → List Interface → List (Option (InterfaceHandler S)) → Option (List ℕ) → Type 0
Described intfs handlers none = ⊥
Described intfs handlers (some rest) =
    AreBlocks rest × (length rest ≡ interfaces_length intfs handlers)

prefixed-Described :
    {S : Type 0} (i : ℕ) (intf : Interface) (h : InterfaceHandler S) (intfs : List Interface)
    (handlers : List (Option (InterfaceHandler S))) (o : Option (List ℕ))
    → AreBlocks h.class_specific_descriptor
    → Described intfs handlers o
    → Described (intf ∷ intfs) (some h ∷ handlers) (prefixed (interface_descriptor i intf h) o)
unfolding Described interfaces_length
prefixed-Described i intf h intfs handlers none own described = elim described [ ]
prefixed-Described i intf h intfs handlers (some rest) own (blocks, e) = (
  AreBlocks-append (interface_descriptor i intf h) rest
      (interface_descriptor-AreBlocks i intf h own) blocks,
  omega (
    arith,
    e,
    length-append (interface_descriptor i intf h) rest,
    length-interface_descriptor i intf h,
  ),
)

interface_descriptors-Described :
    {S : Type 0} (i : ℕ) (intfs : List Interface) (handlers : List (Option (InterfaceHandler S)))
    → HaveHandlers intfs handlers
    → Described intfs handlers (interface_descriptors i intfs handlers)
unfolding HaveHandlers Described interface_descriptors AreBlocks interfaces_length
interface_descriptors-Described i [] handlers have = (([], refl, tt), refl)
interface_descriptors-Described i (intf ∷ intfs) [] have = elim have [ ]
interface_descriptors-Described i (intf ∷ intfs) (none ∷ handlers) have = elim have [ ]
interface_descriptors-Described i (intf ∷ intfs) (some h ∷ handlers) (own, have) =
    prefixed-Described i intf h intfs handlers (interface_descriptors (i + 1) intfs handlers) own
      (interface_descriptors-Described (i + 1) intfs handlers have)

-- The whole: what a host that asks for `n` bytes gets.
unfoldable pub Configured : {S : Type 0} → VirtualDevice S → ℕ → Option (List ℕ) → Type 0
Configured v n none = ⊥
Configured v n (some d) =
    (full : List ℕ) × (d ≡ take n full)
    × AreBlocks full
    × (length full ≡ 9 + interfaces_length v.device.interfaces v.interface_handlers)
    × (word full 2 ≡ length full % 2 ^ 16)
    × (get_or full 4 0 ≡ length v.device.interfaces % 2 ^ 8)

cut-take : (n : ℕ) (xs : List ℕ) → cut n xs ≡ take n xs
unfolding cut
cut-take n xs = elim (Bool-cases (ltb n (length xs))) [
  | inl longer ↦ rw longer
  | inr fits ↦ rw fits (sym (take-long n xs (ltb_false→le n (length xs) fits)))
]

configuration_of-Configured :
    {S : Type 0} (v : VirtualDevice S) (n : ℕ) (o : Option (List ℕ))
    → Described v.device.interfaces v.interface_handlers o
    → Configured v n (configuration_of v n o)
unfolding Described Configured configuration_of with_total configuration_header word IsBlock
configuration_of-Configured v n none described = elim described [ ]
configuration_of-Configured v n (some rest) (blocks, e) = (
  with_total (configuration_header v ++ rest),
  cut-take n (with_total (configuration_header v ++ rest)),
  AreBlocks-cons (take 9 (with_total (configuration_header v ++ rest))) rest (omega arith, refl)
      blocks,
  omega (arith, e),
  omega arith,
  refl,
)

-- A device all of whose interfaces have handlers with well-formed descriptors of their own describes
-- its configuration by descriptors that a host can walk over, each starting with its length; the
-- total length and the number of interfaces in the first are right as far as their 16 and 8 bits
-- hold them, and a host that asks for fewer bytes gets their front.
pub get_configuration_descriptor-Configured :
    {S : Type 0} (v : VirtualDevice S) (n : ℕ)
    → HaveHandlers v.device.interfaces v.interface_handlers
    → Configured v n (get_configuration_descriptor v n)
unfolding get_configuration_descriptor
get_configuration_descriptor-Configured v n have =
    configuration_of-Configured v n
      (interface_descriptors 0 v.device.interfaces v.interface_handlers)
      (interface_descriptors-Described 0 v.device.interfaces v.interface_handlers have)
