-- ===== src/Lib.antt =====
-- A verification library for SMTS, the server of a parallel SMT solver (server/*.py).
--
-- The server keeps a tree of partitions for each instance. AND nodes hold formulas, OR nodes hold
-- the set of partitions that a solver made of their parent. Solvers connect over TCP; the server
-- tells each one which node to solve, asks for partitions, and moves solvers between nodes. A result
-- that a solver reports is recorded at its node and moves up and down the tree.
--
-- Tree: server/framework.py. Tree/Defs has the classes `Node`, `AndNode`, `OrNode` and `Root`: a
--   node is a number, an attribute is a function from nodes, and a constructor takes the next number,
--   so that a node is younger than its parent. Python's truth value of a node is `len(node) > 0`, and
--   `live_parent` is the parent where the code tests `if node.parent`. Tree/Walk has `path`,
--   `path_to_node`, `is_ancestor`, `level`, `all` and `child`; Tree/Status has the two `_set_status`
--   methods and the part of `Solver.read` (server/schedular.py) that records a result.
-- Formula: `to_string` of the three kinds of root. Formula/Stack is the assertion stack of a solver,
--   the specification of the commands that `SMT.to_string` produces.
-- Wire: `Socket.read` and `Socket.write` (server/net.py) on bytes, with the UTF-8 codec that they
--   use. A stream is the list of the chunks that arrive.
-- Config: the settings of server/config/default.py, the keys of server/constant.py, and
--   `config.entrust` (server/config/__init__.py) in Config/Parameters, `config.extend` in Config/Extension.
--   Config/Startup is the main program server/smts.py up to the event loop, with `run_lemma_server`
--   and `run_solvers` (server/utils.py).
-- World and Solver: the state that the scheduler changes, and the methods of `Solver`
--   (server/schedular.py). A method returns a result or an exception beside the new state, and
--   appends the messages that it sends. `time.time()` is an argument. Solver/Read is `Solver.read`,
--   with what becomes of received partitions in Solver/Read/Partitions.
-- Protocol: the calls of those methods and the arriving messages as steps, in any order.
-- Server: the state and the queries of `ParallelizationServer` (server/schedular.py). The set of the
--   connections is the list of them in the order of iteration. Server/Partition is `partition`, and
--   Server/Start the part of `entrust` that starts an instance on the idle solvers or lets
--   solvers join. Server/Finish and Server/Entrust have the part that ends an instance.
--   Server/Turn has the part of `entrust` that moves solvers, with its local variables as a record:
--   Survey is the loop over all nodes, Moves are the loops that send solvers away. Server/Entrust
--   composes the parts in their order. Sets of solvers are lists in the order of iteration.
-- Json and Instances: JSON values and `json2smt` (server/utils.py), `parse`, and `Fixedpoint` with its
--   `partition` (server/framework.py). The reader `smt2json` is an argument.
-- Server/Sockets, Reports, Handlers: `handle_message` and `handle_close`, with `Server.close` and
--   `LemmaServer.init`. `Outside` collects what comes from outside: the reader of S-expressions, the
--   addresses of sockets, the answers of `eval`.
-- Server/Chart: `collectData_vTree` (server/schedular.py), the table behind the picture of the tree;
--   Server/Chart/Drawing is `render_vTree`, the calls of graphviz as a list.
-- Dummy: the loop of the test client `solver` (server/dummy_solver.py) over the messages of the server.
-- Client: `send_files` and `send_file` (server/utils.py), with the parts of paths that they use.
-- Server/Loop: `run_until_timeout` and `run_forever` (server/net.py). A round is the time and the list
--   of the ready connections with what arrives there: a client, a message, or an exception.
-- Protocol/Messages is about the messages that are sent, with the entries of each command in
--   Protocol/Messages/Entries, and Protocol/Delivery what `Socket.write` makes of a
--   message on its way to a client; Dummy/Typed lets the test client read such messages.
-- Evaluation: the scripts that compare measured runs. `Floats` is all that they do with a floating-point
--   number. Evaluation/Benchmarks has `get_benchmarks` (server/sql2times.py) over the answers of its
--   queries, and `db2res` (server/mk_scatter.py); Evaluation/Files the lines that sql2times.py writes, and
--   `times2res`. Evaluation/Scatter has the counts and the groups of points of server/mk_scatter.py,
--   Evaluation/Scatter/Script the gnuplot script, Evaluation/Sources the choice of the inputs.
--   Evaluation/Cactus is server/mk_cactus.py.
--
-- Fuel: the loops that go up a tree recur on a number above the node's own, which is enough since a
-- parent is older; `all` recurs on a number above that of all nodes; `recv_all` on the number of bytes
-- that are missing. The theorems about these functions prove that they return.
--
-- The two `while` loops of `entrust` that hand out solvers may run for ever, so that they take fuel and
-- stop with an error of the model's own.
--
-- Not modelled: `smt2json`, which is a chain of regular expressions; the event database, log
-- messages, and the calls of `render_vTree` in `entrust` (pictures are off by default);
-- `config.spit_preference`, which is off and names a class that is not there; processes, the
-- contents of files, the command line of the client, graphviz, the random choice
-- of lemmas in the test client, and what the scripts of Evaluation print to stderr. A message to a
-- connection that was closed in the same round counts as sent.
--
-- Assumed: `socket.send` takes all bytes of a message at once, and no client sends a text under the
-- entry `partition_recieved`, which `Solver.read` itself sets to a node. The paths of the settings are
-- those of a POSIX system, and the directory of a configuration file is resolved.
pub mod Prelude
pub mod Json
pub mod Tree
pub mod Formula
pub mod Wire
pub mod Config
pub mod World
pub mod Solver
pub mod Protocol
pub mod Instances
pub mod Server
pub mod Dummy
pub mod Client
pub mod Evaluation
pub mod Tests
