-- ===== src/Lib.antt =====
-- dingo-hunter, a static analyser of Go programs, read as definitions that compute.
--
-- The program builds the SSA form of a Go program (ssabuilder), extracts a session graph for each
-- goroutine (cfsmextract), and translates each graph, and each channel, to a communicating finite
-- state machine (cfsmextract/sesstype/cfsm.go). Beside this it builds a call graph and walks it to
-- estimate which loops are unfair (fairness). A second extraction (migoextract) emits MiGo
-- types; it follows the loops of a function, and unrolls those of static bounds.
--
-- Which file models what:
--   Prelude.antt        names, lists, maps as association lists and Boolean tests that all share
--   Ssa.antt            what is read of golang.org/x/tools/go/ssa values
--   Definition.antt     cfsmextract/utils/defs.go: NewDef and VarVers
--   SessType/Node.antt  cfsmextract/sesstype/sesstype.go: Chan, role, the nodes with Kind, Child,
--                       Children and Append, the New...Node functions; nodes.go: CountNodes
--   SessType/Session.antt  sesstype.go: Session, GetRole, MakeChan, MakeExtChan
--   SessType/Stack.antt cfsmextract/sesstype/nodestack.go: Push, Pop, Top, Size
--   SessType/Dot.antt   cfsmextract/sesstype/dot.go: NewGraphvizDot, visitNode, nodeToDotNode
--   Cfsm/Library.antt   the package github.com/nickng/cfsm, which is not part of the repository, as
--                       an interface of operations and their documented behaviour
--   Cfsm/Machine.antt   cfsmextract/sesstype/cfsm.go: rootToMachine, nodeToMachine, isSelfLoop
--   Cfsm/Channel.antt   cfsm.go: chanToMachine
--   CallGraph.antt      ssabuilder/callgraph/callgraph.go: Build, visitBlock, Traverse
--   ChanOps.antt        ssabuilder/channel.go: chanOps, progChanOps, purgeChanOps
--   Fairness.antt       fairness/fairness.go: Visit, isLikelyUnsafe, isCondFair, isIndexStatic, Check
--   Extract/Program.antt  what cfsmextract reads of functions, blocks and instructions
--   Extract/State.antt  cfsmextract/func.go: frame, environ; gortn.go: goroutine; cfsmextract.go:
--                       CFSMExtract; actions on this state, which may panic
--   Extract/Nodes.antt  gortn.go: AddNode; what visit.go does with leaves, parents and channels
--   Extract/Frames.antt func.go: get, translate, isRecursive, handleRetvals, handleExtRetvals,
--                       updateDefs
--   Extract/Memory.antt cfsmextract/visit.go: visitAlloc, visitFieldAddr, visitField, visitIndexAddr,
--                       visitIndex
--   Extract/Moves.antt  visit.go: visitDeref, visitStore and the other instructions that only move
--                       definitions between variables
--   Extract/Comm.antt   visit.go: visitMakeChan, visitSend, visitRecv, visitClose, visitSelect,
--                       visitExtract; func.go: callBuiltin
--   Extract/Run.antt    visit.go: visitBlock, visitFunc, visitInst, visitIf, visitJump,
--                       visitRunDefers; func.go: callCommon, callGo
--   Extract/Main.antt   cfsmextract.go: Run; func.go: makeToplevelFrame
--   Migo/Int64.antt     int64 arithmetic
--   Migo/Loop.antt      migoextract/loop.go and loopstack.go; visit.go: what visitBinOp and visitJump
--                       do with the loop
--   Migo/Structs.antt   migoextract/datastructure.go: getStructField, setStructField
-- Extract/Keeps.antt is the interface of the invariants of the extraction: laws of the elementary
-- actions, from which the modules below it follow every instruction to the whole run;
-- Extract/Registered.antt, Extract/Acyclic.antt and Extract/Balanced.antt give three invariants.
-- The modules below these hold proofs and the specifications that the proofs are about; Tests holds
-- a concrete memory of machines (Tests/Memory.antt) and the theorems at concrete inputs.
--
-- How state is modelled. A method that changes its receiver returns the changed record; package
-- variables are passed on. A pointer is the value it points to where that identifies it
-- (definitions), else a name: functions and blocks are numbers, the states of a machine are those of
-- the interface. Roles have an address beside their name. In the extraction the maps of elements and
-- fields, the nodes and the variables that hold nodes have addresses, since they are shared: an
-- address is a position in a list that only grows. A panic is `none` or an outcome, log.Fatal and
-- the use of a nil state are the error `Fault`.
--
-- Bounds and fuel. Numbers are unbounded where the source counts with int: versions, the size of a
-- stack and the counters of the fairness analysis. The int64 of loops wraps around. Some
-- functions run on fuel. `CallGraph.visit_block`: more fuel than there are blocks is enough, since a
-- block is marked before its instructions are visited. `Extract.Run.visit_block` takes one unit for
-- each block on the path from the entry, calls included; an extraction may need any amount.
-- `Extract.Main.run_queue` takes one unit for each goroutine of the queue.
--
-- Not modelled: the iteration order of Go maps, for which the loops over sys.Roles, the types of a
-- session, the functions of a program and the globals run over arbitrary lists; NewCFSMs, which
-- calls the translations in turn; GetSessionChan and WriteOutput of cfsmextract; the rest of
-- migoextract, the visits of blocks among it; printing, the attributes of drawings, logging, the
-- command line and the web service; the construction of SSA and the pointer analysis, which are
-- library calls.
pub mod Prelude
pub mod Ssa
pub mod Definition
pub mod SessType
pub mod Cfsm
pub mod Tests
pub mod CallGraph
pub mod Fairness
pub mod Migo
pub mod Extract
pub mod ChanOps
