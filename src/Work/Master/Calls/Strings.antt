-- ===== src/Work/Master/Calls/Strings.antt =====
-- The texts that the calls put into orders.
use netmirage.Prelude.{
  ℕ, zero, suc, ◌+◌, ◌≤◌, ◌<◌, ◌^◌, ◌≡◌, ◌≢◌, refl, ap, ◌==◌, Bool, false, [], ◌∷◌, ◌++◌, length,
  take, replicate, Option, none, some, arith, All, ltb, ltb→lt, ltb_false→le, Bool-cases,
  if◌then◌else◌, inl, inr,
}
use netmirage.Prelude.Text.{Text}
use netmirage.Mem.Checked.{Outcome, ok, fault}
use netmirage.Ip.Order.{Ip4Addr}
use netmirage.Work.{
  WorkerOrder, worker_get_edge_remote_mac, worker_get_edge_local_mac, worker_get_interface_mtu,
  worker_add_edge_interface, order_code,
}
use netmirage.Work.Master.{WorkMain, send_order}
use netmirage.Work.Wire.Writing.{IsText, HasTexts}
use netmirage.Work.Master.Logs.{c_str}
use netmirage.Work.Master.Calls.{
  ask_edge_remote_mac, ask_edge_local_mac, ask_interface_mtu, work_add_edge_interface, strncpy,
  configure_order, interface_buf_len,
}

name_fits :
    (n m : ℕ) (name : Text)
    → All (λ b. b ≢ 0) name
    → length name < n
    → n ≤ length name + m
    → c_str (take n (name ++ replicate m 0)) ≡ ok name
unfolding c_str
name_fits zero m name h lt le = absurd (omega arith)
name_fits (suc n) zero [] h lt le = absurd (omega arith)
name_fits (suc n) (suc m) [] h lt le = refl
name_fits (suc n) m (b ∷ bs) h lt le =
    let other : (b == 0) ≡ false = ground (arith, h.0) in
    rw (other, name_fits n m bs h.1 (omega arith) (omega arith)) refl

name_cut :
    (n m : ℕ) (name : Text)
    → All (λ b. b ≢ 0) name
    → n ≤ length name
    → c_str (take n (name ++ replicate m 0)) ≡ fault
unfolding c_str
name_cut zero m name h le = refl
name_cut (suc n) m [] h le = absurd (omega arith)
name_cut (suc n) m (b ∷ bs) h le =
    let other : (b == 0) ≡ false = ground (arith, h.0) in
    rw (other, name_cut n m bs h.1 (omega arith)) refl

interface_name_kept :
    (name : Text)
    → All (λ b. b ≢ 0) name
    → c_str (strncpy interface_buf_len name) ≡ (if ltb (length name) 16 then ok name else fault)
unfolding strncpy
interface_name_kept name h = elim (Bool-cases (ltb (length name) interface_buf_len)) [
  | inl shorter ↦ rw shorter (
      name_fits interface_buf_len interface_buf_len name h
        (ltb→lt (length name) interface_buf_len shorter) (omega arith))
  | inr longer ↦ rw longer (
      name_cut interface_buf_len interface_buf_len name h
        (ltb_false→le (length name) interface_buf_len longer))
]

-- The name of an interface in an order, as the worker reads it.
abbrev pub name_read : WorkerOrder → Option (Outcome Text)
name_read (worker_get_edge_remote_mac intf_name ip) = some (c_str intf_name)
name_read (worker_get_edge_local_mac intf_name) = some (c_str intf_name)
name_read (worker_get_interface_mtu intf_name) = some (c_str intf_name)
name_read (worker_add_edge_interface intf_name) = some (c_str intf_name)
name_read _ = none

-- The call succeeds, and one more order is at the end of the queue, in which the worker reads the name,
-- if it is shorter than 16 bytes, and past the end of the array otherwise.
pub record SendsName (main : WorkMain) (name : Text) (code : ℕ) (result : WorkMain × ℕ)
    : Type 0 where
  pub order : WorkerOrder
  pub code_eq : order_code order ≡ code
  pub succeeds : result.1 ≡ 0
  pub queue_eq : result.0.order_queue ≡ main.order_queue ++ (order ∷ [])
  pub read : name_read order ≡ some (if ltb (length name) 16 then ok name else fault)

-- The four calls that take the name of an interface, a name without NULs, when no error has been
-- received, return 0 or go on to wait, with their order at the end of the queue. The worker reads the
-- name in it, if it is shorter than 16 bytes; otherwise it reads past the end of the array, which has
-- no NUL.
pub named_order_sent :
    (main : WorkMain) (name : Text) (ip : Ip4Addr)
    → main.received_error ≡ false
    → All (λ b. b ≢ 0) name
    → SendsName main name 3 (ask_edge_remote_mac main name ip)
      × SendsName main name 4 (ask_edge_local_mac main name)
      × SendsName main name 5 (ask_interface_mtu main name)
      × SendsName main name 8 (work_add_edge_interface main name)
unfolding ask_edge_remote_mac ask_edge_local_mac ask_interface_mtu work_add_edge_interface
    send_order
named_order_sent main name ip fine h =
    let kept = ap some (interface_name_kept name h) in
    let array = strncpy interface_buf_len name in
    rw fine (
      record {
        order = worker_get_edge_remote_mac array ip;
        code_eq = refl;
        succeeds = refl;
        queue_eq = refl;
        read = kept;
      },
      record {
        order = worker_get_edge_local_mac array;
        code_eq = refl;
        succeeds = refl;
        queue_eq = refl;
        read = kept;
      },
      record {
        order = worker_get_interface_mtu array;
        code_eq = refl;
        succeeds = refl;
        queue_eq = refl;
        read = kept;
      },
      record {
        order = worker_add_edge_interface array;
        code_eq = refl;
        succeeds = refl;
        queue_eq = refl;
        read = kept;
      },
    )

text_of : (text : Text) → length text + 1 < 2 ^ 63 → IsText (text ++ 0 ∷ []) (length text)
text_of text small = record { text = text; block_eq = refl; len_eq = refl; small = small }

-- The order of `workConfigure`, for texts shorter than 2^63 - 1, holds the texts with their NULs, and
-- their lengths; a missing schema is the empty text.
pub configure_order-HasTexts :
    (log_threshold : ℕ) (log_colorize : Bool) (ns_prefix ovs_dir : Text) (ovs_schema : Option Text)
    (soft_mem_cap : ℕ)
    → length ns_prefix + 1 < 2 ^ 63
    → length ovs_dir + 1 < 2 ^ 63
    → ((schema : Text) → ovs_schema ≡ some schema → length schema + 1 < 2 ^ 63)
    → HasTexts
        (configure_order log_threshold log_colorize ns_prefix ovs_dir ovs_schema soft_mem_cap)
unfolding configure_order
configure_order-HasTexts log_threshold log_colorize ns_prefix ovs_dir none cap p d s = record {
  ns_prefix_text = text_of ns_prefix p;
  ovs_dir_text = text_of ovs_dir d;
  ovs_schema_text = text_of [] (omega arith);
}
configure_order-HasTexts log_threshold log_colorize ns_prefix ovs_dir (some schema) cap p d s =
    record {
      ns_prefix_text = text_of ns_prefix p;
      ovs_dir_text = text_of ovs_dir d;
      ovs_schema_text = text_of schema (s schema refl);
    }
