-- ===== src/Lib.antt =====
-- curimata runs a command in a container whose only way to the network is a pair of proxies that hold
-- an allowlist. These files model the parts that decide: the command line, the order of a run, the
-- allowlist, the SOCKS and HTTP proxies, the policy file, the resource limits, the user ID mappings, images
-- from their references to the trees that they are unpacked to, boxes, the directories of the program and
-- the forwarding of signals.
--
-- How the program works together. main.go reads the policy file (policy.go) and the command line, joins
-- their allow rules, checks the limits (cgroup.go), catches signals (signals.go), starts the container, and
-- serves the two proxies (netguard.go) on listeners inside the container's network namespace. Each
-- connection of the container is handled by `handleSocks` or `handleHTTP`, which ask `netguard.dial`, and
-- that asks `allowlist.permits`.
--
-- Files and the code that they model:
--   Common, Common/*       numbers with Boolean tests, lists, byte texts, results, signed integers
--   Text, Text/*           the functions of Go's strings, strconv and net that the code calls
--   Netguard/Allowlist     netguard.go: rule, allowlist, parseAllowlist, splitHostPort, canonicalHost,
--                          permits, String, targetOf
--   Netguard/Dial          netguard.go: deniedError, netguard.dial
--   Netguard/Socks         netguard.go: handleSocks, socksReply; one function for each part of the exchange
--   Netguard/Message       netguard.go: the messages, httpError, dialError, writeHTTPError
--   Netguard/Http          netguard.go: handleHTTP, handleConnect, handlePlainHTTP, forwardRequest,
--                          copyBuffered
--   Policy                 policy.go: allowEntry.UnmarshalJSON, specs, loadPolicy, apply; main.go:
--                          loadAllowlist
--   Limits                 cgroup.go: limits.check, requested, systemdScope, requireScope, cgroupConfig
--   IdMaps                 container.go: subIDRange, idMappings; netns.go: idMapArgs
--   Image                  image.go: imageRef, parseRef, splitChallenge
--   Box                    box.go: prepareBox, installBox, with the states of the disk between the calls
--   Box/Remove             box.go: validateBoxName, removeBoxes, removeBox, clearStoppedContainer,
--                          removeLostState; cgroup.go: stopLeftoverScope
--   Copy                   box.go: copyTree, copyFile
--   Files, Files/*         the paths of Go's filepath, and the calls of package os on a tree of files with
--                          symbolic links
--   Untar                  image.go: untar, joinInside, makeRealDir, writeFile, clearDir
--   Registry               image.go: registryClient, with get, authenticate, manifest and layers
--   Registry/Blob          image.go: extractLayer
--   Pull                   image.go: pullRootfs, with the states of the cache between the calls; humanBytes
--   Container              container.go: containerConfig and its parts; main.go: createContainer, containerEnv;
--                          netguard.go: proxyEnv
--   Locks                  boxlock.go: lockBox, as the calls that it makes
--   Removal                removetree.go: removeTree, with both stages of its helper
--   Rootfs                 main.go: resolveRootfs, looksLikeRootfs, defaultShell
--   Args                   main.go: parseRunArgs, warnFlagAfterName
--   Agent                  main.go: main, startAgentEnvironment, with what they acquire and give up; terminal.go:
--                          the sockets and the console of newTerminal, attach and close
--   Holder                 netns.go: startNetnsHolder, netnsHolder.stop, writeIDMaps
--   Dirs                   dirs.go: checkPrivateDir, fallbackRuntimeDir
--   Dirs/State             dirs.go: xdgDir, dataPath, overlaps, stateDir
--   Signals                signals.go: catchSignals, isStopSignal, forwardTo, exitCodeOf
-- The children of a module hold its proofs, named for what they prove, and Tests modules run the
-- definitions on concrete input.
--
-- State and effects. A handler of a proxy is a function from its input and from the world's answers (the
-- record `World`: the dialer's answer for each target, whether each write succeeds, what a server
-- responds) to the list of its actions, in order. The open connection of the HTTP proxy (`*serverConn`) is
-- an optional target that `forward_request` takes and returns. The loop of `forwardTo` is a relation
-- between the events that its select takes and its actions. `lock_box` is the list of its calls with
-- their answers; what `Flock` does to other processes is the kernel's. `prepare_box` lists the states of the box's
-- directory between the system calls, `pull_rootfs` those of the cache, and `remove_boxes` its actions,
-- all from the answers of the system. `start_agent_environment` and `start_netns_holder` give the list of
-- what is acquired and given up, and `remove_tree` the actions of the program and of its helper in order.
-- The registry client keeps its tokens and the requests that it gave to `http.Client.Do`, whose answer
-- depends on these requests; the redirects that such a call follows are inside package net/http; `pull_rootfs` takes the results of the client as answers. `untar` and `copy_tree` are
-- functions from a tree of files to the tree that they leave: `untar` works on the files of the whole
-- system, where a path is looked up component by component and links lead elsewhere. A node keeps the
-- permissions that it was made with, of which a umask takes bits away, or those that Chmod set
-- (`Mode`, `permissions`); the theorems hold for every umask.
--
-- Numbers. Ports, bytes and sizes are natural numbers, `int` and `int64` are integers; the product that
-- makes bytes of MiB is written with its wrap-around at 64 bits. `atoi` refuses what does not fit 64 bits.
-- Loops are structural. `digits` takes fuel n + 1 for the number n, which has at most that many digits, and
-- the digits of a 16-bit group in an address take fuel 4. The lookup of a path follows at most as many links
-- as the argument `n` says and fails behind that, as the kernel does at 40; the theorems hold for each n. The
-- loop of `humanBytes` takes fuel 7, which is shown to be enough below 2 ^ 63.
--
-- Parameters for code outside the repository: the dialer, net/http (requests and responses are data, and
-- reading fails behind the last one), encoding/json (the record `Json`; what `Decoder.More` tells of the bytes
-- behind a document is written out), float64 (the record `Float`),
-- the search for a systemd session, SHA-256, gzip (how many bytes of a body are read, and what these decode
-- to), package flag (its result is a record), package tar (an archive is the list
-- of its entries and whether reading fails behind them) and filepath-securejoin (`SecureJoin`, which gives a
-- path below the root of the join with no link on its way).
--
-- Not modelled: white space, letter case and quoting beyond ASCII; deadlines; the texts of log lines and of
-- the dialer's errors; the copying inside `splice`; goroutines, since connections share nothing but the
-- constant allowlist; the owner of a file and full disks in the tree
-- of files; the exclusion of other processes by a lock; the remains of a copy that fails; the stages inside
-- the helper of the network, the sizes and the copying of the terminal, and libcontainer
-- itself.
pub mod Common
pub mod Text
pub mod Agent
pub mod Args
pub mod Box
pub mod Container
pub mod Copy
pub mod Dirs
pub mod Files
pub mod Holder
pub mod IdMaps
pub mod Image
pub mod Limits
pub mod Locks
pub mod Netguard
pub mod Policy
pub mod Pull
pub mod Registry
pub mod Removal
pub mod Rootfs
pub mod Signals
pub mod Untar
