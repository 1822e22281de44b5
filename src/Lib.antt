-- ===== src/Lib.antt =====
-- glusterd2, the management daemon of Gluster: models of its core logic and what is proved of them.
--
-- The parts, and where their code is:
--   Prelude        equality of keys, results with errors, lists and tests on native numbers
--   GoMap          Go's built-in map, as an association list
--   Etcd           the store, as an interface with laws; Etcd.Memory is one store that has them
--   Pmap           glusterd2/pmap: the registry of brick ports (registry.go: Update,
--                  SearchByBrickPath, NumOfBricksOnPort, RemovePortByConn, Remove); Pmap.Rpc the
--                  procedures of rpc_prog.go and the events that reach the registry. The mutex makes
--                  every operation one step, so a history is a list of events.
--   Transaction    glusterd2/transaction: Context the key-value context of context.go, Locks the
--                  cluster locks of lock.go (with acquireClusterLocks of transactionv2), Nodes the
--                  union of node lists, Run the steps of step.go and Do of transaction.go. A step
--                  runs on its nodes through Cluster, which stands for the registered step functions
--                  and for the other nodes; its answers may depend on all calls before, so the list
--                  of calls is the state that the steps share.
--   Engine         glusterd2/transactionv2: Executor the steps of a transaction on one node and their
--                  rollback (executor.go, steprunner.go, Execute and startRollBack of engine.go),
--                  Manager what the store keeps of pending transactions and their clean-up
--                  (txnmanager.go), Txn the node that starts one (transaction.go). The watches of the
--                  store and the order of goroutines are arguments: a Round says what happens while a
--                  step is under way, a list of Notices what the starting node hears.
--   BricksPlanner  glusterd2/bricksplanner: Request the request of pkg/api/volume_req.go, Redundancy
--                  GetRedundancy of glusterd2/volume/volume-utils.go, Layout getBricksLayout and the
--                  planners of subvolume types, Devices GetAvailableVgs, Allocate PlanBricks,
--                  Replace GetNewBrick.
--   Brickmux       glusterd2/brickmux/compat.go: the brick to whose process a brick is attached
--                  (findCompatibleBrick), over the local bricks of volumes (GetLocalBricks of
--                  glusterd2/volume/struct.go) and the port map of Pmap.
--   Sunrpc         Dict the dictionaries of glusterd2/servers/sunrpc/dict/dict.go (Serialize,
--                  Unserialize), Record the record fragments of pkg/sunrpc/record.go.
--
--   Text           the functions of Go's strings and strconv that the options and addresses use
--   Options        glusterd2/options/options.go: the validators of option values and StringToBoolean
--   Peers          Address pkg/utils/peerutils.go; Directory the search for peers of
--                  glusterd2/peer/store-utils.go; Service Join, Leave and ReconfigureStore of
--                  glusterd2/commands/peers/peer-rpc-svc.go; Handlers the requests to add and edit
--                  a peer (addpeer.go, editpeer.go), Removal the one to delete one
--                  (deletepeer.go). A Node is the global state
--                  of the process; Answers are those of the store and the other node.
--   Volumes        glusterd2/commands/volumes: Create the checks of a request and the new volume
--                  (volume-create.go, volume-create-txn.go, volume-create-disperse.go), Expand
--                  volume-expand-txn.go, Settings the options of a volume (common.go,
--                  volume-option.go, volume-reset.go), State start, stop and delete
--                  (volume-start.go, volume-stop.go, volume-delete.go) on the volumes in the store.
--   Georep         plugins/georeplication: the sessions in the store (store-utils.go), and the handlers
--                  of rest.go: Create, Actions (start, stop, pause, resume, delete), Config, Workers
--                  (status), and Keys (ssh keys).
--   Snapshots      glusterd2/snapshot and glusterd2/commands/snapshot: Info the snapshot of a volume and
--                  the volume restored from one, Create and Commands the requests with their steps
--                  (snapshot-create.go, snapshot-delete.go, snapshot-restore.go,
--                  snapshot-activate.go, snapshot-deactivate.go), Listed what they keep of the store.
--
-- A brick plan reads the peers and devices (Devices), fills in the request and lays the bricks out
-- (Layout), and puts them on devices (Allocate). A transaction runs steps under locks and hands
-- values on through the context, which lies in the store; the engine has each node run the steps of
-- a transaction by itself, with the steps and contexts of Transaction. The bricks that run sign in to Pmap.
--
-- Bounds and fuel: sizes of bricks are 64-bit and keep their wrap-around where sums and products can
-- reach it; counts of bricks and nodes are taken to be small. The loop of GetRedundancy has 64
-- rounds, enough for a number below 2^64; nodesUnion has as many rounds as there are nodes; the
-- retry of a lock has its rounds as fuel, and a theorem gives how many are enough. Reading a record
-- has more rounds than there are bytes, writing one has two, and theorems show that the bound never
-- ends either.
--
-- Not modelled: clones of snapshots, volfiles, daemons, the other plugins, and of the commands on volumes those that
-- are not named above; logs and tracing; the wire (gRPC, XDR, HTTP, JSON), which are parameters with what
-- the code relies on; firewalld, whose calls are recorded and whose errors the code drops; floating
-- point products of sizes, which are a parameter.
pub mod Prelude
pub mod Georep
pub mod GoMap
pub mod Text
pub mod Options
pub mod Peers
pub mod Volumes
pub mod Pmap
pub mod Etcd
pub mod Transaction
pub mod Engine
pub mod Snapshots
pub mod Sunrpc
pub mod Brickmux
pub mod BricksPlanner
