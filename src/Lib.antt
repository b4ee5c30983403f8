-- ===== src/Lib.antt =====
-- Models of the plugins of this repository and proofs about them. Each plugin is a Go program; the
-- models are functions that follow the Go code, with its state as records passed along, its errors as
-- values, and a run-time panic (an index or a slice out of range) as a result of its own.
--
-- Base: what all models share: the native numbers, lists measured by them, byte slices and strings
--   as lists of bytes, reading and writing them, and results of calls.
-- Accelerator: plugins/accelerator-sources/internal/upstream/cache.go, the cache of the proxy's
--   answers and tokens. Cache has its entries: getLocked, inspectLocked, setLocked and removeLocked are
--   get, inspect_locked, set_locked and remove_locked; the map and the list of Go are one list, the
--   most recently used first. The loop of setLocked runs on as many rounds as there are entries, since
--   each removes one. Load has GetOrLoad, startLoad, runLoad, waitCacheCall and Close: get_or_load,
--   start_load, run_load, wait_cache_call and close. A load that runs is a goroutine in the list
--   `running`; it ends at any later time with any outcome, so that a list of events is one of the ways
--   in which clients and loads interleave. Every event is what one goroutine does under the lock.
--   Dns: plugins/accelerator-sources/internal/upstream/wire.go. dnsQuery, readDNSName, normalizeDNSName and
--   lowerTTL are dns_query, read_dns_name, normalize_dns_name and lower_ttl; Dns.Reply is
--   parseDNSResponse. The names keep the source's 128 rounds; the chain of aliases has a round for
--   each alias besides those up to the limit, so that its tests end it and not the rounds. Text is ASCII there.
--   Dns.Lookup is lookupTypeChain and Lookup over any exchange with the servers. It has 18 rounds, one
--   for each depth up to the limit and two more; each round but the last makes a hop.
-- Cloudflare: plugins/cloudflare-dns/suffix.go: NormalizeDomain, DomainMatchesSuffix and
--   LongestSuffixMatch, on code points; the package unicode is a parameter.
-- Webdav: plugins/webdav/condition.go: ifMatchAllowed, classifyIfMatch, cutEntityTag and
--   strongETagMatch. A header value has one round more than it has bytes, and each round takes one.
-- Docker: plugins/docker-app/rollout.go. Store is DeploymentStore, the store in memory of deployments
--   behind the interface DeploymentStateStore: Load, AcquireLease, CompareAndSwap, DeleteCAS and Put are
--   load, acquire_lease, compare_and_swap, delete_cas and put. Versions and tokens wrap at 2^64; the
--   theorem bounds the number of writes instead.
-- Doh: plugins/doh, the DNS-over-HTTPS server. A request is parsed (parseDNSQuery), looked up in the
--   cache under the hash of its normalized message, forwarded with a client subnet option (injectECS),
--   and the answer is validated, stored, and returned with clamped TTLs.
--   Doh.Cache: cache.go. MemoryCache.Get, Put, Reset and Stats are get, put, reset and stats. The map
--     is an association list; its order stands for the unspecified order in which Go iterates, and
--     no theorem depends on it. Put's eviction loop runs on one round more than there are entries:
--     each round removes an entry or ends the loop.
--   Doh.Wire: rfc8484.go. Name is parseQuestionName, Query parseDNSQuery, Edns validateEDNSQuery,
--     ednsHasOption and injectECS, Record skipDNSName, parseResourceRecord and parseSOAMinimum,
--     Response validateDNSResponse, clampDNSResponseTTLs and responseWithID. The loops over labels
--     keep the source's 128 rounds; the loops over options run on one round more than the message has
--     bytes, and each round takes four bytes or more; that these rounds are enough is part of the
--     theorems that exclude a panic.
--   Doh.Slot: requestSlot of service.go: begin_call, end_call and returned, in any order of steps. Its
--     counter wraps at 2^64; the theorem is on fewer steps.
--   Doh.Config: model.go and upstream_text.go: Configuration, applyConfigurationDefaults, Validate,
--     upstreamsForName, normalizeDomain, domainMatches and questionName. Configured numbers are not
--     negative (Validate rejects negative ones); names are ASCII. questionName runs on as many rounds
--     as the question has bytes, and each takes a byte or more.
--   Doh.Host and Doh.Service: serve of service.go. Host is what a request meets outside of it: whether
--     its context ended, whether the service is live, whether the semaphore has a place, and what the
--     clock, the cache and the resolver return; each answer depends on the number of the question, so
--     that other requests may change it at any moment. World is what a request changes of the service:
--     the last time seen and the statuses. The theorems hold for every host, so for every cache behind
--     the interface and every upstream; IP.String is a parameter. The body of serve is a chain of
--     actions (Serve), one for each call of the source, in its order.
--   SHA-256 is a parameter of the parser of queries. That it has no collisions is a hypothesis of the
--   one theorem that needs it.
--
-- Not modelled: HTTP and network I/O, logging, the user interfaces, the clocks, the build tools under
-- cmd and internal, the rest of accelerator-sources, and the rest of the plugins.
pub mod Accelerator
pub mod Base
pub mod Cloudflare
pub mod Docker
pub mod Doh
pub mod Webdav
