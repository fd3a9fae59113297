-- ===== src/PortMap/Attach.antt =====
-- `init_vhost_device` as its callers see it.
use vtb.Prelude.{ℕ, ◌≤◌, ◌<◌, ◌≡◌, ◌≢◌, refl, some, ℤ, pos, ok, undefined, int_eq, int_ltb, arith}
use vtb.Prelude.Dict
use vtb.Common.Devices.{PortMap, max_queue_pairs, zero_port_map}
use vtb.PortMap.{PMap, port_at, store, init_vhost_device}
use vtb.PortMap.Init.{
  HasRoom, IsFresh, filled, started, init_pairs-filled, init_pairs-undefined, filled-IsFresh,
}

pub lookup-store_self :
    (p : ℤ) (pm : PortMap) (pmap : PMap) → Dict.lookup p (store p pm pmap) ≡ some pm
lookup-store_self p pm pmap = Dict.lookup-insert_self int_ltb p pm pmap

pub lookup-store_ne :
    (p q : ℤ) (pm : PortMap) (pmap : PMap)
    → q ≢ p
    → Dict.lookup q (store p pm pmap) ≡ Dict.lookup q pmap
lookup-store_ne p q pm pmap h = Dict.lookup-insert_ne int_ltb p q pm pmap h

pub zero_port_map-HasRoom : HasRoom zero_port_map
zero_port_map-HasRoom = record { vhost_room = refl; id_room = refl; port_room = refl }

-- With at most eight queue pairs, `init_vhost_device` returns; the port then has a device with
-- the given id and idle queue pairs numbered in order, and every other port is as before.
pub init_vhost_device-IsFresh :
    (port_id vid : ℤ) (n : ℕ) (pmap : PMap)
    → HasRoom (port_at port_id pmap)
    → n ≤ max_queue_pairs
    → (after : PMap) × (new : PortMap) × (init_vhost_device port_id vid (pos n) pmap ≡ ok after)
      × (Dict.lookup port_id after ≡ some new)
      × IsFresh vid n (port_at port_id pmap) new
      × ((q : ℤ) → q ≢ port_id → Dict.lookup q after ≡ Dict.lookup q pmap)
unfolding init_vhost_device
init_vhost_device-IsFresh port_id vid n pmap room h =
    let old = port_at port_id pmap in
    let new = filled (pos n) n 0 (started vid n old) in
    (
      store port_id new pmap,
      new,
      rw
          (init_pairs-filled (pos n) n 0 (started vid n old)
            (record {
              vhost_room = room.vhost_room;
              id_room = room.id_room;
              port_room = room.port_room;
            })
            (omega arith))
          refl,
      lookup-store_self port_id new pmap,
      filled-IsFresh vid n old room h,
      λ q d. lookup-store_ne port_id q new pmap d,
    )

-- For a device with more than eight queue pairs, on an entry whose arrays have their eight elements,
-- `init_vhost_device` writes past the end of the arrays: the behaviour is undefined.
pub init_vhost_device-undefined :
    (port_id vid : ℤ) (n : ℕ) (pmap : PMap)
    → HasRoom (port_at port_id pmap)
    → max_queue_pairs < n
    → init_vhost_device port_id vid (pos n) pmap ≡ undefined
unfolding init_vhost_device
init_vhost_device-undefined port_id vid n pmap room h =
    rw
      (init_pairs-undefined (pos n) n 0 (started vid n (port_at port_id pmap))
        (record {
          vhost_room = room.vhost_room;
          id_room = room.id_room;
          port_room = room.port_room;
        })
        (omega arith) (omega arith))
      refl
